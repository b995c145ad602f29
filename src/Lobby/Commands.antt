-- ===== src/Lobby/Commands.antt =====
-- What a client may ask of the lobby: the handlers of Lobby::handlePacket (src/server/lobby.cpp).
use free_kill.Base.{
  if◌then◌else◌, ◌==◌, nat_eq, string_eq, int_eq, contains, ℕ, String, ◌||◌, Option, none, some, [],
  ◌∷◌, ◌++◌,
}
use free_kill.Base.Int.{ℤ, pos, negsuc}
use free_kill.Json.{array, at, to_int, to_string, as_array, num, str}
use free_kill.Database.{find_user_id, update_user}
use free_kill.SqlText.{latin1, check_string}
use free_kill.World.{set_base, fault, setting, World, Env, text, json}
use free_kill.World.Notify.{do_notify}
use free_kill.Room.Basics.{is_outdated}
use free_kill.Room.Observers.{add_observer}
use free_kill.Room.Joining.{add_player}
use free_kill.Room.Commands.{chat}
use free_kill.Server.Rooms.{create_room, update_room_list}

unfoldable pub update_avatar : Env → World → ℕ → String → World
update_avatar env w p json_data =
    let avatar = to_string (at (as_array (env.from_json json_data)) 0) in
    if check_string avatar
    then (let i = (w.player p).id in
        let w₁ = record w {
          db = record w.db {
            userinfo = update_user w.db.userinfo i (λ u. record u { avatar = avatar });
          };
        } in
        do_notify (set_base w₁ p (record (w₁.player p).base { avatar = avatar })) p "UpdateAvatar"
          (text avatar))
    else w

abbrev pub salted : Env → String → String → String
salted env pw salt = env.sha256_hex (latin1 pw ++ latin1 salt)

-- The row of the sender is read without a look whether there is one.
unfoldable pub update_password : Env → World → ℕ → String → World
update_password env w p json_data =
    let args = as_array (env.from_json json_data) in
    let oldpw = to_string (at args 0) in
    let newpw = to_string (at args 1) in
    let i = (w.player p).id in
    elim (find_user_id w.db.userinfo i) [
      | none ↦ fault w
      | some u ↦
          if u.password == salted env oldpw u.salt
          then do_notify
              (record w {
                db = record w.db {
                  userinfo =
                      update_user w.db.userinfo i
                        (λ v. record v { password = salted env newpw u.salt });
                };
              })
              p "UpdatePassword" (text "1")
          else do_notify w p "UpdatePassword" (text "0")
    ]

unfoldable pub create_room_request : Env → World → ℕ → String → World
create_room_request env w p json_data =
    let args = as_array (env.from_json json_data) in
    create_room env w (some p) (to_string (at args 0)) (to_int (at args 1)) (to_int (at args 2))
      (env.print_json (at args 3))

-- Server::findRoom
abbrev pub find_room : World → ℤ → Option ℕ
find_room w (negsuc i) = none
find_room w (pos i) = if contains w.rooms i then some i else none

unfoldable pub get_room_config : Env → World → ℕ → String → World
get_room_config env w p json_data =
    let i = to_int (at (as_array (env.from_json json_data)) 0) in
    elim (find_room w i) [
      | none ↦ do_notify w p "ErrorMsg" (text "no such room")
      | some r ↦ do_notify w p "GetRoomConfig" (json (array (num i ∷ str (w.room r).settings ∷ [])))
    ]

-- enterRoom and observeRoom share their guards; `go` is addPlayer or addObserver.
unfoldable pub visit_room : Env → (World → ℕ → World) → World → ℕ → String → World
visit_room env go w p json_data =
    let args = as_array (env.from_json json_data) in
    elim (find_room w (to_int (at args 0))) [
      | none ↦ do_notify w p "ErrorMsg" (text "no such room")
      | some r ↦
          let password = setting env (w.room r).settings "password" in
          if password == "" || to_string (at args 1) == password
          then (let (old, w₁) = is_outdated w r in
              if old then do_notify w₁ p "ErrorMsg" (text "room is outdated") else go w₁ r)
          else do_notify w p "ErrorMsg" (text "room password error")
    ]

unfoldable pub enter_room : Env → World → ℕ → String → World
enter_room env w p = visit_room env (λ v r. add_player env v r (some p)) w p

unfoldable pub observe_room : Env → World → ℕ → String → World
observe_room env w p = visit_room env (λ v r. add_observer v r p) w p

unfoldable pub handle_packet : Env → World → ℕ → String → String → World
handle_packet env w sender command json_data =
    if command == "UpdateAvatar"
    then update_avatar env w sender json_data
    else if command == "UpdatePassword"
    then update_password env w sender json_data
    else if command == "CreateRoom"
    then create_room_request env w sender json_data
    else if command == "GetRoomConfig"
    then get_room_config env w sender json_data
    else if command == "EnterRoom"
    then enter_room env w sender json_data
    else if command == "ObserveRoom"
    then observe_room env w sender json_data
    else if command == "RefreshRoomList"
    then update_room_list env w sender
    else if command == "Chat"
    then chat env w w.lobby_players [] sender json_data
    else w

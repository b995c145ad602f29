-- ===== src/System/LobbyPackets.antt =====
-- What clients ask of the lobby (src/server/lobby.cpp): every handler keeps the rooms sound.
use free_kill.Lobby.Commands
use free_kill.System.Bounded.{
  Keeps-refl, Keeps-trans, Shrinks-Keeps, if-Keeps, add_player-Keeps, Keeps,
}
use free_kill.System.Creation.{create_room-Keeps}
use free_kill.Base.{
  if◌then◌else◌, Option-cases, ◌==◌, int_eq, nat_eq, string_eq, ℕ, String, refl, inl, inr, Bool,
  true, false, ◌||◌, some, List, [], ◌∷◌,
}
use free_kill.Json.{at, to_int, to_string, as_array, Json}
use free_kill.Database.{find_user_id}
use free_kill.World.{setting, World, Env}
use free_kill.World.Notify.{do_notify}
use free_kill.Room.Basics.{is_full, is_outdated}
use free_kill.Server.Rooms.{describe, list_rooms, update_room_list}
use free_kill.System.Shrinks.{
  Shrinks-refl, Shrinks-trans, still, if-Shrinks, is_outdated-Shrinks, add_observer-Shrinks,
  Shrinks,
}
use free_kill.SqlText.{check_string}
use free_kill.System.RoomPackets.{chat-Shrinks}

update_avatar-Shrinks :
    (env : Env) (w : World) (p : ℕ) (j : String) → Shrinks w (Commands.update_avatar env w p j)
unfolding Commands.update_avatar do_notify
update_avatar-Shrinks env w p j =
    if-Shrinks (check_string (to_string (at (as_array (env.from_json j)) 0))) (still refl)
      (Shrinks-refl w)

update_password-Shrinks :
    (env : Env) (w : World) (p : ℕ) (j : String) → Shrinks w (Commands.update_password env w p j)
unfolding Commands.update_password do_notify
update_password-Shrinks env w p j =
    elim (Option-cases (find_user_id w.db.userinfo (w.player p).id)) [
      | inl e ↦ rw (e, Commands.update_password) (still refl)
      | inr (u, e) ↦
          let oldpw = to_string (at (as_array (env.from_json j)) 0) in
          rw (e, Commands.update_password)
            (if-Shrinks (u.password == Commands.salted env oldpw u.salt) (still refl) (still refl))
    ]

get_room_config-Shrinks :
    (env : Env) (w : World) (p : ℕ) (j : String) → Shrinks w (Commands.get_room_config env w p j)
unfolding Commands.get_room_config do_notify
get_room_config-Shrinks env w p j =
    elim (Option-cases (Commands.find_room w (to_int (at (as_array (env.from_json j)) 0)))) [
      | inl e ↦ rw (e, Commands.get_room_config) (still refl)
      | inr (r, e) ↦ rw (e, Commands.get_room_config) (still refl)
    ]

-- Behind the guards of enterRoom and observeRoom.
visit_room-Keeps :
    (env : Env) (go : World → ℕ → World)
    → ((v : World) (r : ℕ) → Keeps v (go v r))
    → (w : World) (p : ℕ) (j : String) → Keeps w (Commands.visit_room env go w p j)
unfolding Commands.visit_room do_notify
visit_room-Keeps env go ok w p j =
    elim (Option-cases (Commands.find_room w (to_int (at (as_array (env.from_json j)) 0)))) [
      | inl e ↦ rw (e, Commands.visit_room) (Shrinks-Keeps (still refl))
      | inr (r, e) ↦
          let asked = is_outdated w r in
          let a : Keeps w asked.1 = Shrinks-Keeps (is_outdated-Shrinks w r) in
          let password = setting env (w.room r).settings "password" in
          let given = to_string (at (as_array (env.from_json j)) 1) in
          rw (e, Commands.visit_room)
            (if-Keeps (password == "" || given == password)
              (if-Keeps asked.0 (Keeps-trans a (Shrinks-Keeps (still refl)))
                (Keeps-trans a (ok asked.1 r)))
              (Shrinks-Keeps (still refl)))
    ]

describe-Shrinks : (env : Env) (w : World) (r : ℕ) → Shrinks w (describe env w r).1
unfolding describe
describe-Shrinks env w r = is_outdated-Shrinks w r

if_lines-Shrinks :
    {w : World} (t : Bool) (a b : List Json × World)
    → Shrinks w a.1
    → Shrinks w b.1
    → Shrinks w (if t then a else b).1
if_lines-Shrinks true a b x y = x
if_lines-Shrinks false a b x y = y

list_rooms-Shrinks :
    (env : Env) (rs : List ℕ) (w : World) (full open_ : List Json)
    → Shrinks w (list_rooms env w full open_ rs).1
unfolding list_rooms
list_rooms-Shrinks env [] w full open_ = Shrinks-refl w
list_rooms-Shrinks env (r ∷ rs) w full open_ =
    let line = describe env w r in
    let a : Shrinks w line.1 = describe-Shrinks env w r in
    if_lines-Shrinks (is_full (w.room r)) _ _
      (Shrinks-trans a (list_rooms-Shrinks env rs line.1 _ _))
      (Shrinks-trans a (list_rooms-Shrinks env rs line.1 _ _))

update_room_list-Shrinks : (env : Env) (w : World) (p : ℕ) → Shrinks w (update_room_list env w p)
unfolding update_room_list do_notify
update_room_list-Shrinks env w p =
    Shrinks-trans (list_rooms-Shrinks env w.rooms w [] []) (still refl)

pub lobby_packet-Keeps :
    (env : Env) (w : World) (p : ℕ) (c j : String) → Keeps w (Commands.handle_packet env w p c j)
unfolding Commands.handle_packet Commands.enter_room Commands.observe_room
    Commands.create_room_request
lobby_packet-Keeps env w p c j =
    if-Keeps (c == "UpdateAvatar") (Shrinks-Keeps (update_avatar-Shrinks env w p j)) (
      if-Keeps (c == "UpdatePassword") (Shrinks-Keeps (update_password-Shrinks env w p j)) (
        if-Keeps (c == "CreateRoom") (create_room-Keeps env w (some p) _ _ _ _) (
          if-Keeps (c == "GetRoomConfig") (Shrinks-Keeps (get_room_config-Shrinks env w p j)) (
            if-Keeps (c == "EnterRoom")
              (visit_room-Keeps env _ (λ v r. add_player-Keeps env v r (some p)) w p j)
              (if-Keeps (c == "ObserveRoom")
                (visit_room-Keeps env _ (λ v r. Shrinks-Keeps (add_observer-Shrinks v r p)) w p j)
                (if-Keeps (c == "RefreshRoomList")
                  (Shrinks-Keeps (update_room_list-Shrinks env w p))
                  (if-Keeps (c == "Chat") (Shrinks-Keeps (chat-Shrinks env w _ _ p j))
                    (Keeps-refl w))))))))

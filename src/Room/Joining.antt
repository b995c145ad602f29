-- ===== src/Room/Joining.antt =====
-- Room::addPlayer and addRobot (src/server/room.cpp).
use free_kill.Lobby.Members
use free_kill.Base.{
  if◌then◌else◌, ◌==◌, nat_eq, string_eq, int_eq, contains, ℕ, suc, String, Bool, true, false, not,
  ◌||◌, Option, none, some, List, [], ◌∷◌, ◌++◌, map,
}
use free_kill.Base.Int.{is_positive, pred, pos}
use free_kill.Json.{array, bool, num, str}
use free_kill.Player.{new_player, get_game_data, online, robot}
use free_kill.World.{
  set_player, set_base, set_room, setting, settings_object, Place, ServerPlayer, Room, Payload,
  World, Env, in_room, text, json,
}
use free_kill.World.Notify.{do_notify, do_broadcast_notify}
use free_kill.Room.Basics.{is_full, get_other_players}
use free_kill.ServerPlayer.Status.{set_state, set_ready}
use free_kill.Room.Stats.{update_player_game_data}

-- id, name, avatar, readiness and time, as "AddPlayer" tells them
abbrev pub introduction : ServerPlayer → Payload
introduction v = json (
    array (
      num v.id
      ∷ str v.screen_name
      ∷ str v.avatar
      ∷ bool v.ready
      ∷ num (pos v.total_game_time)
      ∷ []))

abbrev game_data : ServerPlayer → Payload
game_data v = json (array (num v.id ∷ map num (get_game_data v.base)))

-- What the new player is told of another.
unfoldable pub introduce_one : World → ℕ → ℕ → World
introduce_one w p q =
    do_notify (do_notify w p "AddPlayer" (introduction (w.player q))) p "UpdateGameData"
      (game_data (w.player q))

-- `for (ServerPlayer *p : getOtherPlayers(player))`
unfoldable pub introduce : World → ℕ → List ℕ → World
introduce w p [] = w
introduce w p (q ∷ qs) = introduce (introduce_one w p q) p qs

unfoldable pub tell_owner : World → ℕ → Option ℕ → World
tell_owner w p none = w
tell_owner w p (some o) = do_notify w p "RoomOwner" (json (array (num (w.player o).id ∷ [])))

-- The last part of addPlayer: the game data in the room's mode.
unfoldable pub show_mode : World → ℕ → ℕ → String → World
show_mode w r p mode =
    let v = w.player p in
    if not (v.last_game_mode == mode)
    then update_player_game_data (set_base w p (record v.base { last_game_mode = mode })) v.id mode
    else do_broadcast_notify w (w.room r).players "UpdateGameData" (game_data v)

-- The player takes a seat and leaves the lobby.
unfoldable pub take_seat : World → ℕ → ℕ → World
take_seat w r p =
    let w₁ = set_room w r (record (w.room r) { players = (w.room r).players ++ p ∷ [] }) in
    let w₂ = set_player w₁ p (record (w₁.player p) { room = in_room r }) in
    if is_positive (w.player p).id then Members.remove_player w₂ p else w₂

abbrev entry : Env → Room → Payload
entry env room =
    json (array (num room.capacity ∷ num room.timeout ∷ settings_object env room.settings ∷ []))

-- What the room and the player are told.
unfoldable pub welcome : Env → World → ℕ → ℕ → World
welcome env w r p =
    let room = w.room r in
    let w₁ = do_notify w p "EnterRoom" (entry env room) in
    let w₂ = introduce w₁ p (get_other_players room p) in
    let w₃ = tell_owner w₂ p room.owner in show_mode w₃ r p (setting env room.settings "gameMode")

unfoldable pub add_player : Env → World → ℕ → Option ℕ → World
add_player env w r none = w
add_player env w r (some p) =
    let room = w.room r in
    let v = w.player p in
    if contains room.rejected_players v.id
    then do_notify w p "ErrorMsg" (text "rejected your demand of joining room")
    else if is_full room || room.game_started
    then (let w₁ = do_notify w p "ErrorMsg" (text "Room is full or already started!") in
        if contains room.runned_players v.id
        then do_notify w₁ p "ErrorMsg" (text "Running away is shameful.")
        else w₁)
    else welcome env
        (take_seat (do_broadcast_notify w room.players "AddPlayer" (introduction v)) r p) r p

-- new ServerPlayer(room)
abbrev pub new_server_player : Place → ServerPlayer
new_server_player place = record {
  base = record new_player { state = online };
  socket = none;
  room = place;
  alive = true;
  thinking = false;
  uuid = "";
  game_time = 0;
  timer_start = 0;
}

-- The constructor at the next address.
abbrev pub create : World → ServerPlayer → World
create w v = record (set_player w w.next_player v) { next_player = suc w.next_player }

-- The robot before it joins: the state is set first, the id and the names after it.
unfoldable pub make_robot : Env → World → ℕ → ℕ → World
make_robot env w r p =
    let w₁ = set_state (create w (new_server_player (in_room r))) p robot in
    let i = (w.room r).robot_id in
    let w₂ = set_base w₁ p (record (w₁.player p).base {
      id = i;
      avatar = "guanyu";
      screen_name = Prim.Native.String.◌++◌ "COMP-" (env.print i);
    }) in
    let w₃ = set_ready w₂ p true in
    set_room w₃ r (record (w₃.room r) { robot_id = pred (w₃.room r).robot_id })

abbrev pub is_owner : Option ℕ → ℕ → Bool
is_owner none p = false
is_owner (some o) p = o == p

unfoldable pub add_robot : Env → World → ℕ → ℕ → World
add_robot env w r p =
    if not (is_owner (w.room r).owner p) || is_full (w.room r)
    then w
    else add_player env (make_robot env w r w.next_player) r (some w.next_player)

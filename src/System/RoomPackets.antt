-- ===== src/System/RoomPackets.antt =====
-- What clients ask of a room (src/server/room.cpp): every handler keeps the rooms sound.
use free_kill.Server.Ban
use free_kill.Room.Commands as RoomCommands
use free_kill.System.Bounded.{Keeps-refl, Shrinks-Keeps, if-Keeps, add_robot-Keeps, Keeps}
use free_kill.Base.{
  Option-cases, ◌==◌, int_eq, nat_eq, string_eq, ℕ, String, refl, inl, inr, not, List, [], ◌∷◌,
  arith,
}
use free_kill.Json.{member, to_int, to_string, to_bool, fields_of}
use free_kill.World.{World, Env, text}
use free_kill.World.Notify.{do_notify, do_broadcast_notify}
use free_kill.Room.Basics.{find_player, is_outdated}
use free_kill.Room.Leaving.{remove_player}
use free_kill.Base.Int.{pos}
use free_kill.System.Shrinks.{
  Shrinks-refl, Shrinks-trans, still, set_room-Shrinks, if-Shrinks, set_ready-Shrinks,
  push_request-Shrinks, is_outdated-Shrinks, Shrinks,
}
use free_kill.System.Leaving.{kick-Shrinks, remove_player-Shrinks}
use free_kill.System.Games.{manually_start-Shrinks}

pub chat-Shrinks :
    (env : Env) (w : World) (ps os : List ℕ) (p : ℕ) (j : String)
    → Shrinks w (RoomCommands.chat env w ps os p j)
unfolding RoomCommands.chat do_broadcast_notify
chat-Shrinks env w ps os p j =
    let doc = fields_of (env.from_json j) in
    if-Shrinks (not (Ban.check_ban_word w (to_string (member doc "msg")))) (Shrinks-refl w)
      (if-Shrinks (to_int (member doc "type") == pos 1) (still refl) (still refl))

quit_room-Shrinks : (env : Env) (w : World) (r p : ℕ) → Shrinks w (RoomCommands.quit_room env w r p)
unfolding RoomCommands.quit_room
quit_room-Shrinks env w r p =
    let w₁ = remove_player env w r p in
    let asked = is_outdated w₁ r in
    let a : Shrinks w asked.1 =
      Shrinks-trans (remove_player-Shrinks env w r p) (is_outdated-Shrinks w₁ r) in
    if-Shrinks asked.0 (Shrinks-trans a (kick-Shrinks env asked.1 p)) a

kick_player-Shrinks :
    (env : Env) (w : World) (r p : ℕ) (j : String)
    → Shrinks w (RoomCommands.kick_player env w r p j)
unfolding RoomCommands.kick_player
kick_player-Shrinks env w r p j =
    elim (Option-cases (find_player w (w.room r).players (env.read_int j))) [
      | inl e ↦ rw (e, RoomCommands.kick_player) (Shrinks-refl w)
      | inr (q, e) ↦
          let w₁ = remove_player env w r q in
          let a = remove_player-Shrinks env w r q in
          rw (e, RoomCommands.kick_player)
            (if-Shrinks (not (w.room r).game_started)
              (Shrinks-trans (Shrinks-trans a (set_room-Shrinks w₁ r _ refl (omega arith)))
                (still refl))
              (Shrinks-refl w))
    ]

pub turn_out-Shrinks :
    (env : Env) (ps : List ℕ) (w : World) → Shrinks w (RoomCommands.turn_out env w ps)
unfolding RoomCommands.turn_out do_notify
turn_out-Shrinks env [] w = Shrinks-refl w
turn_out-Shrinks env (p ∷ ps) w =
    let told = do_notify w p "ErrorMsg" (text "room is outdated") in
    let a : Shrinks w told = still refl in
    Shrinks-trans (Shrinks-trans a (kick-Shrinks env told p)) (turn_out-Shrinks env ps _)

start_game-Shrinks : (env : Env) (w : World) (r : ℕ) → Shrinks w (RoomCommands.start_game env w r)
unfolding RoomCommands.start_game
start_game-Shrinks env w r =
    let asked = is_outdated w r in
    let a : Shrinks w asked.1 = is_outdated-Shrinks w r in
    if-Shrinks asked.0 (Shrinks-trans a (turn_out-Shrinks env _ asked.1))
      (Shrinks-trans a (manually_start-Shrinks env asked.1 r))

add_robot_request-Keeps :
    (env : Env) (w : World) (r p : ℕ) → Keeps w (RoomCommands.add_robot_request env w r p)
unfolding RoomCommands.add_robot_request
add_robot_request-Keeps env w r p =
    if-Keeps (to_bool (Ban.get_config w "enableBots")) (add_robot-Keeps env w r p) (Keeps-refl w)

pub room_packet-Keeps :
    (env : Env) (w : World) (r p : ℕ) (c j : String)
    → Keeps w (RoomCommands.handle_packet env w r p c j)
unfolding RoomCommands.handle_packet RoomCommands.ready
room_packet-Keeps env w r p c j =
    if-Keeps (c == "PushRequest") (Shrinks-Keeps (push_request-Shrinks w r _ j)) (
      if-Keeps (c == "QuitRoom") (Shrinks-Keeps (quit_room-Shrinks env w r p)) (
        if-Keeps (c == "AddRobot") (add_robot_request-Keeps env w r p) (
          if-Keeps (c == "KickPlayer") (Shrinks-Keeps (kick_player-Shrinks env w r p j)) (
            if-Keeps (c == "Ready") (Shrinks-Keeps (set_ready-Shrinks w p _)) (
              if-Keeps (c == "StartGame") (Shrinks-Keeps (start_game-Shrinks env w r)) (
                if-Keeps (c == "Chat") (Shrinks-Keeps (chat-Shrinks env w _ _ p j))
                  (Keeps-refl w)))))))

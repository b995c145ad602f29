-- ===== src/Room/Commands.antt =====
-- What a client may ask of a room: the handlers of Room::handlePacket (src/server/room.cpp) and
-- RoomBase::chat (roombase.cpp).
use Prim.Native.Char.{Char, code}
use free_kill.Server.Ban
use free_kill.Base.{
  if◌then◌else◌, ltb, true, false, ◌==◌, nat_eq, string_eq, int_eq, ℕ, zero, suc, String, not, none,
  some, List, [], ◌∷◌, ◌++◌,
}
use free_kill.Base.Int.{pos}
use free_kill.Json.{member, to_int, to_string, to_bool, put, fields_of, num, str, obj}
use free_kill.World.{World, Env, text, json, unreject}
use free_kill.World.Notify.{do_notify, do_broadcast_notify}
use free_kill.Room.Basics.{find_player, push_request, is_outdated, add_reject_id}
use free_kill.Room.Joining.{add_robot}
use free_kill.Room.Leaving.{remove_player}
use free_kill.ServerPlayer.Status.{set_ready}
use free_kill.ServerPlayer.Disconnect.{kick}
use free_kill.Room.Game.{manually_start}

-- msg.replace(".", "․"), msg.replace("%", "％"): neither makes room for the other
abbrev censor_char : Char → Char
censor_char c = if code c == 46 then "․" else if code c == 37 then "％" else c

pub censor : String → String
censor String.[] = String.[]
censor (String.◌∷◌ c s) = String.◌∷◌ (censor_char c) (censor s)

-- msg.erase(msg.begin() + n, msg.end()), in UTF-16 units; a shorter text stays, and half of a
-- character at the cut is printed as U+FFFD
pub cut : ℕ → String → String
cut zero s = ""
cut (suc n) String.[] = String.[]
cut (suc zero) (String.◌∷◌ c s) = if ltb (code c) 65536 then String.◌∷◌ c "" else String.◌∷◌ "�" ""
cut (suc (suc n)) (String.◌∷◌ c s) = elim (ltb (code c) 65536) [
  | true ↦ String.◌∷◌ c (cut (suc n) s)
  | false ↦ String.◌∷◌ c (cut n s)
]

-- RoomBase::chat, for the lists of the lobby or of a room
unfoldable pub chat : Env → World → List ℕ → List ℕ → ℕ → String → World
chat env w ps os sender json_data =
    let doc = fields_of (env.from_json json_data) in
    let v = w.player sender in
    let msg = to_string (member doc "msg") in
    if not (Ban.check_ban_word w msg)
    then w
    else (let doc₁ = put (put doc "sender" (num v.id)) "msg" (str (cut 300 (censor msg))) in
        if to_int (member doc "type") == pos 1
        then do_broadcast_notify w ps "Chat" (json (obj (put doc₁ "userName" (str v.screen_name))))
        else do_broadcast_notify (do_broadcast_notify w ps "Chat" (json (obj doc₁))) os "Chat"
            (json (obj doc₁)))

unfoldable pub quit_room : Env → World → ℕ → ℕ → World
quit_room env w r p =
    let (old, w₁) = is_outdated (remove_player env w r p) r in if old then kick env w₁ p else w₁

unfoldable pub add_robot_request : Env → World → ℕ → ℕ → World
add_robot_request env w r p =
    if to_bool (Ban.get_config w "enableBots") then add_robot env w r p else w

-- The sender is not looked at.
unfoldable pub kick_player : Env → World → ℕ → ℕ → String → World
kick_player env w r sender json_data =
    let i = env.read_int json_data in
    elim (find_player w (w.room r).players i) [
      | none ↦ w
      | some p ↦
          if not (w.room r).game_started
          then (let w₁ = add_reject_id (remove_player env w r p) r i in
              record w₁ { timers = w₁.timers ++ (30000, unreject r i) ∷ [] })
          else w
    ]

unfoldable pub ready : World → ℕ → World
ready w p = set_ready w p (not (w.player p).ready)

-- The loop over the players of an outdated room.
unfoldable pub turn_out : Env → World → List ℕ → World
turn_out env w [] = w
turn_out env w (p ∷ ps) =
    turn_out env (kick env (do_notify w p "ErrorMsg" (text "room is outdated")) p) ps

unfoldable pub start_game : Env → World → ℕ → World
start_game env w r =
    let (old, w₁) = is_outdated w r in
    if old then turn_out env w₁ (w₁.room r).players else manually_start env w₁ r

unfoldable pub handle_packet : Env → World → ℕ → ℕ → String → String → World
handle_packet env w r sender command json_data =
    if command == "PushRequest"
    then push_request w r (w.player sender).id json_data
    else if command == "QuitRoom"
    then quit_room env w r sender
    else if command == "AddRobot"
    then add_robot_request env w r sender
    else if command == "KickPlayer"
    then kick_player env w r sender json_data
    else if command == "Ready"
    then ready w sender
    else if command == "StartGame"
    then start_game env w r
    else if command == "Chat"
    then chat env w (w.room r).players (w.room r).observers sender json_data
    else w

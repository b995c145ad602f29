-- ===== src/Tests/SystemRuns.antt =====
-- Runs of the server as a whole: somebody enters a room; rooms of capacity 0.
use free_kill.Server.Ban
use free_kill.Tests.Data.{waiting, env₀}
use free_kill.System.Steps.{here, later, event, packet}
use free_kill.System.Capacity.{never_overfull, listed_once}
use free_kill.System.Bounded.{Sound}
use free_kill.Server.ZeroRoom.{create_room-Stranded, Stranded}
use free_kill.Server.Rooms.{create_room}
use free_kill.ServerPlayer.Session.{on_notification_got}
use free_kill.World.{World, Env}
use free_kill.Json.{Json, num, str, array}
use free_kill.Base.{
  count, nat_eq, nat_beq_iff, ◌≤◌, arith, if◌then◌else◌, length, ◌==◌, string_eq, ◌||◌, String, ◌≡◌,
  refl, true, Option, none, some, [], ◌∷◌,
}
use free_kill.Base.Int.{leb_ℤ, is_negative, pos}

-- A client that asks for room 7.
abbrev parse_enter : String → Option Json
parse_enter s = if s == "enter" then some (array (num (pos 7) ∷ str "" ∷ [])) else none

abbrev env₁ : Env
env₁ = record env₀ { from_json = parse_enter }

abbrev entered : World
entered = on_notification_got env₁ waiting 3 "EnterRoom" "enter"

waiting-Sound : Sound waiting
waiting-Sound = record {
  bounded = λ q. refl;
  fresh = λ q above. ground (arith, nat_beq_iff 7 q);
  once = λ q. ground arith;
}

never_overfull_example :
    (is_negative (entered.room 7).capacity
      || leb_ℤ (pos (length (entered.room 7).players)) (entered.room 7).capacity)
    ≡ true
never_overfull_example =
    never_overfull env₁ waiting entered waiting-Sound
      (later here (event (packet 3 "EnterRoom" "enter"))) 7

listed_once_example :
    (count 7 entered.rooms ≤ 1) × (entered.next_room_id ≤ 7 → count 7 entered.rooms ≡ 0)
listed_once_example =
    listed_once env₁ waiting entered waiting-Sound
      (later here (event (packet 3 "EnterRoom" "enter"))) 7

create_room-Stranded_example :
    Stranded env₀ 8 3
      (waiting.player 3).room
      (create_room env₀ waiting (some 3) "mine" (pos 0) (pos 15) "{}")
unfolding Ban.check_ban_word Ban.get_config Ban.value Ban.free_of
create_room-Stranded_example = create_room-Stranded env₀ waiting 3 "mine" (pos 15) "{}" refl

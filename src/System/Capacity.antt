-- ===== src/System/Capacity.antt =====
-- Room capacities and room numbers over whatever the server lives through: Server::createRoom, Room::isFull and
-- addPlayer (src/server/server.cpp, room.cpp) against every other step.
use free_kill.World.{Timer, unban, unreject, Timer, World, Env, unban, unreject}
use free_kill.Base.{count, nat_eq, ◌≤◌, ◌||◌, length, ℕ, ◌≡◌, refl, true, arith}
use free_kill.System.Console.{Order-Shrinks, LuaCall-Shrinks}
use free_kill.System.Sessions.{
  on_reply_ready-Shrinks, destroy_player-Shrinks, ask_heartbeat-Shrinks, kick_silent-Shrinks,
  destroy_room-Shrinks,
}
use free_kill.Server.Ban.{fire}
use free_kill.Room.Basics.{wake_up}
use free_kill.System.Steps.{
  request_timeout, Event, Step, Reach, packet, reply, connection, request, disconnection, timeout,
  heartbeat, silence, player_gone, room_gone, time, network, event, lua_call, order, here, later,
}
use free_kill.System.Arrivals.{process_new_connection-Shrinks, process_request-Shrinks}
use free_kill.System.Bounded.{Sound, Keeps-refl, Keeps-trans, Shrinks-Keeps, Keeps}
use free_kill.System.Commands.{on_notification_got-Keeps}
use free_kill.Base.Int.{is_negative, leb_ℤ, pos}
use free_kill.System.Shrinks.{still, set_room-Shrinks, Shrinks}
use free_kill.System.Leaving.{on_disconnected-Shrinks}

fire-Shrinks : (w : World) (t : Timer) → Shrinks w (fire w t)
unfolding fire
fire-Shrinks w (unban a) = still refl
fire-Shrinks w (unreject r i) = set_room-Shrinks w r _ refl (omega arith)

Event-Keeps : {env : Env} {w w' : World} → Event env w w' → Keeps w w'
unfolding wake_up
Event-Keeps {env} {w} (packet p c j) = on_notification_got-Keeps env w p c j
Event-Keeps {env} {w} (reply p) = Shrinks-Keeps (on_reply_ready-Shrinks w p)
Event-Keeps {env} {w} (connection s) = Shrinks-Keeps (process_new_connection-Shrinks env w s)
Event-Keeps {env} {w} (request s m salt) = Shrinks-Keeps (process_request-Shrinks env w s m salt)
Event-Keeps {env} {w} (disconnection p) = Shrinks-Keeps (on_disconnected-Shrinks w p)
Event-Keeps {env} {w} (timeout t) = Shrinks-Keeps (fire-Shrinks w t)
Event-Keeps {env} {w} (request_timeout r) = Shrinks-Keeps (still refl)
Event-Keeps {env} {w} heartbeat = Shrinks-Keeps (ask_heartbeat-Shrinks _ w)
Event-Keeps {env} {w} silence = Shrinks-Keeps (kick_silent-Shrinks env _ w)
Event-Keeps {env} {w} (player_gone p) = Shrinks-Keeps (destroy_player-Shrinks env w p)
Event-Keeps {env} {w} (room_gone ps os r) = Shrinks-Keeps (destroy_room-Shrinks env ps os w r)
Event-Keeps {env} {w} (time n) = Shrinks-Keeps (still refl)
Event-Keeps {env} {w} (network f) = Shrinks-Keeps (still refl)

Step-Keeps : {env : Env} {w w' : World} → Step env w w' → Keeps w w'
Step-Keeps (event e) = Event-Keeps e
Step-Keeps (lua_call c) = Shrinks-Keeps (LuaCall-Shrinks c)
Step-Keeps (order o) = Shrinks-Keeps (Order-Shrinks o)

Reach-Keeps : {env : Env} {w w' : World} → Reach env w w' → Keeps w w'
Reach-Keeps {w = w} here = Keeps-refl w
Reach-Keeps (later past s) = Keeps-trans (Reach-Keeps past) (Step-Keeps s)

-- If in a world no room holds more players than its capacity, rooms of negative capacity apart, and
-- the numbers in the list of rooms are different and below the next one, then no room holds more
-- players than its capacity, rooms of negative capacity apart, in any world that packets,
-- connections, logins, lost sockets, timers, heartbeats, calls from Lua, commands on the console and
-- the ends of players and rooms lead to.
pub never_overfull :
    (env : Env) (w w' : World)
    → Sound w
    → Reach env w w'
    → (r : ℕ)
    → (is_negative (w'.room r).capacity
        || leb_ℤ (pos (length (w'.room r).players)) (w'.room r).capacity)
      ≡ true
never_overfull env w w' h past = ((Reach-Keeps past).keeps h).bounded

-- If in a world no room holds more players than its capacity, rooms of negative capacity apart, and
-- the numbers in the list of rooms are different and below the next one, then in any world that the
-- server's steps lead to no number stands twice in the list of rooms, and neither the number that
-- createRoom will give out next nor one above it stands there.
pub listed_once :
    (env : Env) (w w' : World)
    → Sound w
    → Reach env w w'
    → (q : ℕ) → (count q w'.rooms ≤ 1) × (w'.next_room_id ≤ q → count q w'.rooms ≡ 0)
listed_once env w w' h past q =
    let sound = (Reach-Keeps past).keeps h in (sound.once q, sound.fresh q)

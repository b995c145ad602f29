-- ===== src/System/Steps.antt =====
-- What may happen to the server next: a packet, a connection, a setup string, a lost socket, a
-- timer, the heartbeat, the end of an object, a call from the rooms' Lua thread, a command on the
-- console (src/server/server.cpp, serverplayer.cpp, room.cpp, lobby.cpp, shell.cpp), each as the
-- whole handler; and between them the clock and the network, which are not the program's.
use free_kill.Shell.{
  ban_ip_command, ban_uuid_command, ban_command, reset_password_command, kick_command, msg_command,
}
use free_kill.Server.Ban.{fire}
use free_kill.Base.{ℕ, ◌+◌, String, Bool, Option, List, map}
use free_kill.Base.Int.{ℤ}
use free_kill.Player.{Player, State}
use free_kill.World.Notify.{do_notify}
use free_kill.ServerPlayer.Status.{set_state}
use free_kill.ServerPlayer.Disconnect.{kick}
use free_kill.World.{Payload, set_base}
use free_kill.Room.Basics.{wake_up, thread_is_outdated, set_request_timer, destroy_request_timer}
use free_kill.World.{ClientSocket, Timer, World, Env}
use free_kill.Room.Basics.{delay, increase_ref_count, decrease_ref_count}
use free_kill.Room.Stats.{update_player_win_rate, update_general_win_rate}
use free_kill.ServerPlayer.Disconnect.{on_disconnected}
use free_kill.Room.Game.{game_over}
use free_kill.ServerPlayer.Session.{
  on_notification_got, set_thinking, on_reply_ready, destroy_player, ask_heartbeat, kick_silent,
  destroy_room,
}
use free_kill.Server.Rooms.{refresh_md5}
use free_kill.Server.Login.{process_new_connection, process_request}

-- The steps that the network, the timers and the event loop take.
pub data Event (env : Env) (w : World) : World → Type 0 where
  packet : (p : ℕ) (c j : String) → Event env w (on_notification_got env w p c j)
  reply : (p : ℕ) → Event env w (on_reply_ready w p)
  connection : (s : ℕ) → Event env w (process_new_connection env w s)
  request : (s : ℕ) (msg salt : String) → Event env w (process_request env w s msg salt)
  disconnection : (p : ℕ) → Event env w (on_disconnected w p)
  timeout : (t : Timer) → Event env w (fire w t)
  request_timeout : (r : ℕ) → Event env w (wake_up w r "request_timer")
  heartbeat : Event env w (ask_heartbeat w (map (λ e. e.1) w.players))
  silence : Event env w (kick_silent env w (map (λ e. e.1) w.players))
  player_gone : (p : ℕ) → Event env w (destroy_player env w p)
  room_gone : (ps os : List ℕ) (r : ℕ) → Event env w (destroy_room env ps os w r)
  time : (n : ℕ) → Event env w (record w { clock = w.clock + n })
  network : (f : ℕ → ClientSocket) → Event env w (record w { sock = f })

-- The calls from the Lua thread of a room that src/swig/server.i and player.i let it make.
pub data LuaCall (env : Env) (w : World) : World → Type 0 where
  over : (r : ℕ) → LuaCall env w (game_over env w r)
  player_rate :
      (r : ℕ) (i : ℤ) (m role : String) (result : ℕ)
      → LuaCall env w (update_player_win_rate w r i m role result)
  general_rate :
      (g m role : String) (result : ℕ) → LuaCall env w (update_general_win_rate w g m role result)
  delays_room : (r : ℕ) (ms : ℤ) → LuaCall env w (delay w r ms)
  holds : (r : ℕ) → LuaCall env w (increase_ref_count w r)
  releases : (r : ℕ) → LuaCall env w (decrease_ref_count w r)
  kicks_out : (p : ℕ) → LuaCall env w (kick env w p)
  tells : (p : ℕ) (c : String) (b : Payload) → LuaCall env w (do_notify w p c b)
  sets_state : (p : ℕ) (s : State) → LuaCall env w (set_state w p s)
  sets_fields : (p : ℕ) (b : Player) → LuaCall env w (set_base w p b)  -- the setters of Player
  asks_thread : (t : ℕ) → LuaCall env w (thread_is_outdated w t).1
  starts_timer : (r ms : ℕ) → LuaCall env w (set_request_timer w r ms)
  ends_timer : (r : ℕ) → LuaCall env w (destroy_request_timer w r)
  thinks : (p : ℕ) (b : Bool) → LuaCall env w (set_thinking w p b)

-- The commands on the console.
pub data Order (env : Env) (w : World) : World → Type 0 where
  bans : (names : List String) (b : Bool) → Order env w (ban_command env w names b)
  bans_ip : (names : List String) (b : Bool) → Order env w (ban_ip_command env w names b)
  bans_uuid : (names : List String) (b : Bool) → Order env w (ban_uuid_command env w names b)
  kicks : (i : Option ℤ) → Order env w (kick_command env w i)
  says : (msg : Option String) → Order env w (msg_command w msg)
  resets : (names : List String) → Order env w (reset_password_command w names)
  reloads : (sum : String) → Order env w (refresh_md5 env w sum)

pub data Step (env : Env) (w w' : World) : Type 0 where
  event : Event env w w' → Step env w w'
  lua_call : LuaCall env w w' → Step env w w'
  order : Order env w w' → Step env w w'

pub data Reach (env : Env) (start : World) : World → Type 0 where
  here : Reach env start start
  later : {v w : World} → Reach env start v → Step env v w → Reach env start w

-- ===== src/ServerPlayer/Store.antt =====
-- Kicking and disconnecting (src/server/serverplayer.cpp) against the database.
use free_kill.Lobby.Members
use free_kill.Room.Basics
use free_kill.Base.{
  leb, Bool-cases, length, int_eq, nat_eq, string_eq, contains, remove_one, ℕ, ◌≡◌, refl, ap, ◌∙◌,
  inl, inr, Option, none, some,
}
use free_kill.ServerPlayer.Disconnect.{
  set_socket, disconnect_from_host, say_logged_out, disconnected_in_game, disconnected_at,
  on_disconnected, kick_socket, kick,
}
use free_kill.ServerPlayer.Frames.{set_state-OnlyStatus}
use free_kill.Room.Observers.{remove_observer}
use free_kill.Player.{state_beq, State, robot, offline}
use free_kill.World.{set_room, is_online, Place, World, Env, lobby, in_room}
use free_kill.World.Notify.{do_notify, do_broadcast_notify, broadcast, update_online_info}
use free_kill.ServerPlayer.Status.{set_state}

lobby_keeps_db : (w : World) (p : ℕ) → (Members.add_player w p).db ≡ w.db
unfolding Members.add_player Members.remove_player update_online_info do_broadcast_notify do_notify
lobby_keeps_db w p = elim (Bool-cases (state_beq (w.player p).state robot)) [
  | inl e ↦ rw e refl
  | inr e ↦ rw e refl
]

remove_observer_keeps_db : (w : World) (r p : ℕ) → (remove_observer w r p).db ≡ w.db
unfolding remove_observer do_notify Basics.push_request
remove_observer_keeps_db w r p =
    let seen = record (w.room r) { observers = remove_one (w.room r).observers p } in
    let w₂ = Members.add_player (set_room w r seen) p in
    elim (Bool-cases (is_online (w₂.player p).state)) [
      | inl e ↦ rw e (lobby_keeps_db (set_room w r seen) p)
      | inr e ↦ rw e (lobby_keeps_db (set_room w r seen) p)
    ]

set_state_keeps_db : (w : World) (p : ℕ) (s : State) → (set_state w p s).db ≡ w.db
set_state_keeps_db w p s = ap (λ v. v.db) (set_state-OnlyStatus w p s).0.rest

say_logged_out_keeps_db : (w : World) (p : ℕ) → (say_logged_out w p).db ≡ w.db
unfolding broadcast say_logged_out
say_logged_out_keeps_db w p = elim (Bool-cases (leb (length w.players) 10)) [
  | inl e ↦ rw e refl
  | inr e ↦ rw e refl
]

in_game_keeps_db : (w : World) (p r : ℕ) → (disconnected_in_game w p r).db ≡ w.db
unfolding disconnected_in_game Basics.wake_up set_socket
in_game_keeps_db w p r = elim (Bool-cases (contains (w.room r).observers p)) [
  | inl e ↦ rw e (remove_observer_keeps_db w r p)
  | inr e ↦ elim (Bool-cases (w.player p).thinking) [
    | inl t ↦ rw (e, t) (set_state_keeps_db _ p offline)
    | inr t ↦ rw (e, t) (set_state_keeps_db w p offline)
  ]
]

at_keeps_db : (w : World) (p : ℕ) (place : Place) → (disconnected_at w p place).db ≡ w.db
at_keeps_db w p lobby = set_state_keeps_db w p robot
at_keeps_db w p (in_room r) = elim (Bool-cases (w.room r).game_started) [
  | inl e ↦ rw e (in_game_keeps_db w p r)
  | inr e ↦ elim (Bool-cases ((set_state w p robot).room r).inside_game_over) [
    | inl i ↦ rw (e, i) (set_state_keeps_db w p robot)
    | inr i ↦ rw (e, i) (set_state_keeps_db w p robot)
  ]
]

on_disconnected_keeps_db : (w : World) (p : ℕ) → (on_disconnected w p).db ≡ w.db
unfolding on_disconnected
on_disconnected_keeps_db w p =
    at_keeps_db (say_logged_out w p) p (w.player p).room ∙ say_logged_out_keeps_db w p

kick_socket_keeps_db :
    (env : Env) (w : World) (p : ℕ) (s : Option ℕ) → (kick_socket env w p s).db ≡ w.db
unfolding disconnect_from_host
kick_socket_keeps_db env w p none = on_disconnected_keeps_db w p
kick_socket_keeps_db env w p (some s) = elim (Bool-cases (env.closes_now s)) [
  | inl now ↦ rw now (on_disconnected_keeps_db (disconnect_from_host w s) p)
  | inr later ↦ rw later refl
]

-- Kicking a player leaves the database as it was, wherever he is and whether or not he has a socket.
pub kick_keeps_db : (env : Env) (w : World) (p : ℕ) → (kick env w p).db ≡ w.db
unfolding kick set_socket
kick_keeps_db env w p =
    kick_socket_keeps_db env (set_state w p offline) p ((set_state w p offline).player p).socket
    ∙ set_state_keeps_db w p offline

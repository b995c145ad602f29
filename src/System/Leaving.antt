-- ===== src/System/Leaving.antt =====
-- Kicking, disconnecting and leaving a room (src/server/serverplayer.cpp, room.cpp) fill no seat.
use free_kill.Server.Ban
use free_kill.Base.{
  leb, Option-cases, length, is_empty, int_eq, nat_eq, string_eq, contains, remove_one,
  length-remove_one-le, ℕ, refl, inl, inr, true, false, not, ◌&&◌, Option, none, some, List, [],
  ◌∷◌, arith,
}
use free_kill.System.Shrinks.{
  Shrinks-refl, Shrinks-trans, still, set_room-Shrinks, if-Shrinks, broadcast-Shrinks,
  set_state-Shrinks, set_ready-Shrinks, lobby_add-Shrinks, set_owner-Shrinks,
  on_room_abandoned-Shrinks, remove_observer-Shrinks, Shrinks,
}
use free_kill.Base.Int.{ℤ}
use free_kill.Player.{run, robot, offline}
use free_kill.World.{set_player, set_room, Place, World, Env, lobby, in_room}
use free_kill.World.Notify.{do_broadcast_notify}
use free_kill.Room.Basics.{is_abandoned, wake_up}
use free_kill.ServerPlayer.Status.{set_state, set_ready}
use free_kill.ServerPlayer.Disconnect.{
  set_socket, disconnect_from_host, say_logged_out, disconnected_in_game, disconnected_at,
  on_disconnected, kick_socket, kick,
}
use free_kill.Room.Leaving.{
  leave_seat, runner_of, need_socket, give_up_socket, run_away, first_player, abandon, settle,
  remove_player,
}
use free_kill.Room.Joining.{create, is_owner}

say_logged_out-Shrinks : (w : World) (p : ℕ) → Shrinks w (say_logged_out w p)
unfolding say_logged_out
say_logged_out-Shrinks w p =
    if-Shrinks (leb (length w.players) 10) (broadcast-Shrinks w _ _) (Shrinks-refl w)

set_socket-Shrinks : (w : World) (p : ℕ) (s : Option ℕ) → Shrinks w (set_socket w p s)
unfolding set_socket
set_socket-Shrinks w p s = still refl

disconnected_in_game-Shrinks : (w : World) (p r : ℕ) → Shrinks w (disconnected_in_game w p r)
unfolding disconnected_in_game wake_up
disconnected_in_game-Shrinks w p r =
    if-Shrinks (contains (w.room r).observers p)
      (Shrinks-trans (remove_observer-Shrinks w r p) (still refl))
      (Shrinks-trans
        (Shrinks-trans (if-Shrinks (w.player p).thinking (still refl) (Shrinks-refl w))
          (set_state-Shrinks _ p offline))
        (set_socket-Shrinks _ p none))

disconnected_at-Shrinks :
    (w : World) (p : ℕ) (place : Place) → Shrinks w (disconnected_at w p place)
disconnected_at-Shrinks w p lobby = Shrinks-trans (set_state-Shrinks w p robot) (still refl)
disconnected_at-Shrinks w p (in_room r) =
    if-Shrinks (w.room r).game_started (disconnected_in_game-Shrinks w p r) (
      Shrinks-trans (set_state-Shrinks w p robot) (
        if-Shrinks (not ((set_state w p robot).room r).inside_game_over) (still refl)
          (Shrinks-refl _)))

pub on_disconnected-Shrinks : (w : World) (p : ℕ) → Shrinks w (on_disconnected w p)
unfolding on_disconnected
on_disconnected-Shrinks w p =
    Shrinks-trans (say_logged_out-Shrinks w p) (disconnected_at-Shrinks (say_logged_out w p) p _)

kick_socket-Shrinks :
    (env : Env) (w : World) (p : ℕ) (s : Option ℕ) → Shrinks w (kick_socket env w p s)
unfolding disconnect_from_host
kick_socket-Shrinks env w p none = on_disconnected-Shrinks w p
kick_socket-Shrinks env w p (some s) =
    let a : Shrinks w (disconnect_from_host w s) = still refl in
    Shrinks-trans a (
      if-Shrinks (env.closes_now s) (on_disconnected-Shrinks (disconnect_from_host w s) p)
        (Shrinks-refl _))

pub kick-Shrinks : (env : Env) (w : World) (p : ℕ) → Shrinks w (kick env w p)
unfolding kick
kick-Shrinks env w p =
    Shrinks-trans (set_state-Shrinks w p offline)
      (Shrinks-trans (kick_socket-Shrinks env _ p _) (set_socket-Shrinks _ p none))

pub temporarily_ban-Shrinks :
    (env : Env) (w : World) (i : ℤ) → Shrinks w (Ban.temporarily_ban env w i)
unfolding Ban.temporarily_ban Ban.ban_address
temporarily_ban-Shrinks env w i = elim (Option-cases (Ban.find_player w i)) [
  | inl e ↦ rw (e, Ban.temporarily_ban) (Shrinks-refl w)
  | inr (p, e) ↦ elim (Option-cases (Ban.address_of w p i)) [
    | inl f ↦ rw (e, f, Ban.temporarily_ban) (Shrinks-refl w)
    | inr (addr, f) ↦
        rw (e, f, Ban.temporarily_ban)
          (Shrinks-trans (still {w = w} {w' = Ban.ban_address w addr} refl) (kick-Shrinks env _ p))
  ]
]

-- Leaving: a seat is given up, or the runaway is replaced.
length-leave :
    (w : World) (r p : ℕ)
    → Shrinks w (
        set_room (set_ready w p false) r (record ((set_ready w p false).room r) {
          players = remove_one ((set_ready w p false).room r).players p;
        }))
length-leave w r p =
    let w₀ = set_ready w p false in
    Shrinks-trans (set_ready-Shrinks w p false)
      (set_room-Shrinks w₀ r _ refl (length-remove_one-le (w₀.room r).players p))

leave_seat-Shrinks : (w : World) (r p : ℕ) → Shrinks w (leave_seat w r p)
unfolding leave_seat do_broadcast_notify
leave_seat-Shrinks w r p =
    Shrinks-trans
      (Shrinks-trans
        (if-Shrinks (contains (w.room r).players p && not (is_empty (w.room r).players))
          (length-leave w r p) (Shrinks-refl w))
        (lobby_add-Shrinks _ p))
      (still refl)

need_socket-Shrinks : (w : World) (s : Option ℕ) → Shrinks w (need_socket w s)
need_socket-Shrinks w none = still refl
need_socket-Shrinks w (some s) = Shrinks-refl w

give_up_socket-Shrinks : (w : World) (r p : ℕ) → Shrinks w (give_up_socket w r p)
unfolding give_up_socket
give_up_socket-Shrinks w r p =
    let w₁ = set_state w p run in
    let w₂ = need_socket w₁ (w.player p).socket in
    let w₃ = set_player w₂ p (record (w₂.player p) { socket = none }) in
    let a : Shrinks w₂ w₃ = still refl in
    Shrinks-trans
      (Shrinks-trans (Shrinks-trans (set_state-Shrinks w p run) (need_socket-Shrinks w₁ _)) a)
      (if-Shrinks (not (w.player p).died) (set_room-Shrinks w₃ r _ refl (omega arith))
        (Shrinks-refl w₃))

run_away-Shrinks : (env : Env) (w : World) (r p : ℕ) → Shrinks w (run_away env w r p)
unfolding run_away Ban.add_player
run_away-Shrinks env w r p =
    let v = w.player p in
    let w₀ = give_up_socket w r p in
    let w₁ = create w₀ (runner_of v v.socket r) in
    let w₂ = Ban.add_player w₁ w₀.next_player in
    let a : Shrinks w₀ w₂ = still refl in
    Shrinks-trans
      (Shrinks-trans (Shrinks-trans (give_up_socket-Shrinks w r p) a)
        (lobby_add-Shrinks w₂ w₀.next_player))
      (if-Shrinks (not env.client_instance && not v.died) (temporarily_ban-Shrinks env _ v.id)
        (Shrinks-refl _))

first_player-Shrinks : (w : World) (r : ℕ) (ps : List ℕ) → Shrinks w (first_player w r ps)
first_player-Shrinks w r [] = still refl
first_player-Shrinks w r (p ∷ ps) = set_owner-Shrinks w r (some p)

abandon-Shrinks : (w : World) (r : ℕ) → Shrinks w (abandon w r)
unfolding abandon
abandon-Shrinks w r =
    let left = record (w.room r) { abandoned = true } in
    let a : Shrinks w (set_room w r left) = set_room-Shrinks w r left refl (omega arith) in
    Shrinks-trans (Shrinks-trans a (set_owner-Shrinks _ r none))
      (if-Shrinks (not (w.room r).abandoned) (on_room_abandoned-Shrinks _ r) (Shrinks-refl _))

settle-Shrinks : (w : World) (r p : ℕ) → Shrinks w (settle w r p)
unfolding settle
settle-Shrinks w r p =
    if-Shrinks (is_abandoned w (w.room r)) (abandon-Shrinks w r)
      (if-Shrinks (is_owner (w.room r).owner p) (first_player-Shrinks w r _) (Shrinks-refl w))

pub remove_player-Shrinks : (env : Env) (w : World) (r p : ℕ) → Shrinks w (remove_player env w r p)
unfolding remove_player
remove_player-Shrinks env w r p =
    if-Shrinks (contains (w.room r).observers p) (remove_observer-Shrinks w r p) (
      if-Shrinks (not (w.room r).game_started)
        (Shrinks-trans (leave_seat-Shrinks w r p) (settle-Shrinks _ r p))
        (Shrinks-trans (run_away-Shrinks env w r p) (settle-Shrinks _ r p)))

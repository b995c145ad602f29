-- ===== src/System/Sessions.antt =====
-- Sessions (src/server/serverplayer.cpp) and the end of players and rooms fill no seat.
use free_kill.Server.Ban
use free_kill.Base.{
  leb, length, ◌==◌, int_eq, nat_eq, string_eq, length-remove_one-le, ℕ, refl, Bool, true, false,
  not, ◌&&◌, Option, none, some, List, [], ◌∷◌,
}
use free_kill.Base.Int.{is_positive, is_negative}
use free_kill.Player.{online}
use free_kill.World.{set_player, is_online, Place, World, Env, lobby, in_room}
use free_kill.World.Notify.{do_notify}
use free_kill.Room.Basics.{wake_up}
use free_kill.Room.Observers.{remove_observer}
use free_kill.ServerPlayer.Status.{set_state}
use free_kill.ServerPlayer.Disconnect.{set_socket}
use free_kill.Room.Game.{game_over}
use free_kill.ServerPlayer.Session.{
  set_thinking, wake_at, on_reply_ready, say_back, resume_at, reconnect, leave_place, forget,
  destroy_robot, destroy_player, ask_heartbeat, kick_silent, leave_all, unwatch_all, destroy_room,
}
use free_kill.Server.Rooms.{setup_player}
use free_kill.System.Shrinks.{
  Shrinks-refl, Shrinks-trans, still, set_room-Shrinks, if-Shrinks, broadcast-Shrinks,
  set_state-Shrinks, lobby_remove-Shrinks, push_request-Shrinks, remove_observer-Shrinks, Shrinks,
}
use free_kill.System.Leaving.{kick-Shrinks, remove_player-Shrinks}
use free_kill.System.Games.{game_over-Shrinks}

say_back-Shrinks : (w : World) (p : ℕ) → Shrinks w (say_back w p)
say_back-Shrinks w p =
    if-Shrinks (leb (length w.players) 10) (broadcast-Shrinks w _ _) (Shrinks-refl w)

pub setup_player-Shrinks : (w : World) (p : ℕ) (b : Bool) → Shrinks w (setup_player w p b)
unfolding setup_player do_notify
setup_player-Shrinks w p b = Shrinks-trans (still refl) (if-Shrinks b (still refl) (Shrinks-refl _))

resume_at-Shrinks :
    (env : Env) (w : World) (p : ℕ) (place : Place) → Shrinks w (resume_at env w p place)
unfolding do_notify
resume_at-Shrinks env w p lobby = Shrinks-trans (still refl) (kick-Shrinks env _ p)
resume_at-Shrinks env w p (in_room r) =
    Shrinks-trans (setup_player-Shrinks w p true) (push_request-Shrinks _ r _ _)

pub reconnect-Shrinks : (env : Env) (w : World) (p s : ℕ) → Shrinks w (reconnect env w p s)
unfolding reconnect set_socket
reconnect-Shrinks env w p s =
    let w₀ = set_state (say_back w p) p online in
    let w₁ = set_socket w₀ p (some s) in
    let w₂ = set_player w₁ p (record (w₁.player p) { alive = true }) in
    let a : Shrinks w₀ w₂ = still refl in
    Shrinks-trans
      (Shrinks-trans
        (Shrinks-trans (say_back-Shrinks w p) (set_state-Shrinks (say_back w p) p online)) a)
      (resume_at-Shrinks env w₂ p (w₂.player p).room)

wake_at-Shrinks : (w : World) (place : Place) → Shrinks w (wake_at w place)
unfolding wake_up
wake_at-Shrinks w lobby = Shrinks-refl w
wake_at-Shrinks w (in_room r) = still refl

pub on_reply_ready-Shrinks : (w : World) (p : ℕ) → Shrinks w (on_reply_ready w p)
unfolding on_reply_ready
on_reply_ready-Shrinks w p =
    Shrinks-trans (still refl) (wake_at-Shrinks (set_thinking w p false) (w.player p).room)

leave_place-Shrinks :
    (env : Env) (w : World) (p : ℕ) (place : Place) → Shrinks w (leave_place env w p place)
leave_place-Shrinks env w p lobby = lobby_remove-Shrinks w p
leave_place-Shrinks env w p (in_room r) = remove_player-Shrinks env w r p

forget-Shrinks : (w : World) (p : ℕ) (o : Option ℕ) → Shrinks w (forget w p o)
unfolding Ban.remove_player
forget-Shrinks w p none = Shrinks-refl w
forget-Shrinks w p (some q) = if-Shrinks (q == p) (still refl) (Shrinks-refl w)

destroy_robot-Shrinks : (w : World) (p : ℕ) (place : Place) → Shrinks w (destroy_robot w p place)
destroy_robot-Shrinks w p lobby = Shrinks-refl w
destroy_robot-Shrinks w p (in_room r) =
    set_room-Shrinks w r _ refl (length-remove_one-le (w.room r).players p)

pub destroy_player-Shrinks : (env : Env) (w : World) (p : ℕ) → Shrinks w (destroy_player env w p)
unfolding destroy_player
destroy_player-Shrinks env w p =
    let w₁ = leave_place env w p (w.player p).room in
    if-Shrinks (is_negative (w.player p).id) (destroy_robot-Shrinks w p (w.player p).room) (
      Shrinks-trans
        (Shrinks-trans (leave_place-Shrinks env w p (w.player p).room)
          (leave_place-Shrinks env w₁ p (w₁.player p).room))
        (forget-Shrinks _ p _))

pub ask_heartbeat-Shrinks : (ps : List ℕ) (w : World) → Shrinks w (ask_heartbeat w ps)
unfolding ask_heartbeat do_notify
ask_heartbeat-Shrinks [] w = Shrinks-refl w
ask_heartbeat-Shrinks (p ∷ ps) w =
    Shrinks-trans (if-Shrinks (is_online (w.player p).state) (still refl) (Shrinks-refl w))
      (ask_heartbeat-Shrinks ps _)

pub kick_silent-Shrinks : (env : Env) (ps : List ℕ) (w : World) → Shrinks w (kick_silent env w ps)
unfolding kick_silent
kick_silent-Shrinks env [] w = Shrinks-refl w
kick_silent-Shrinks env (p ∷ ps) w =
    Shrinks-trans
      (if-Shrinks (is_online (w.player p).state && not (w.player p).alive) (kick-Shrinks env w p)
        (Shrinks-refl w))
      (kick_silent-Shrinks env ps _)

leave_all-Shrinks : (env : Env) (r : ℕ) (ps : List ℕ) (w : World) → Shrinks w (leave_all env w r ps)
leave_all-Shrinks env r [] w = Shrinks-refl w
leave_all-Shrinks env r (p ∷ ps) w =
    Shrinks-trans
      (if-Shrinks (is_positive (w.player p).id) (remove_player-Shrinks env w r p) (Shrinks-refl w))
      (leave_all-Shrinks env r ps _)

unwatch_all-Shrinks : (w : World) (r : ℕ) (ps : List ℕ) → Shrinks w (unwatch_all w r ps)
unwatch_all-Shrinks w r [] = Shrinks-refl w
unwatch_all-Shrinks w r (p ∷ ps) =
    Shrinks-trans (remove_observer-Shrinks w r p) (unwatch_all-Shrinks (remove_observer w r p) r ps)

pub destroy_room-Shrinks :
    (env : Env) (ps os : List ℕ) (w : World) (r : ℕ) → Shrinks w (destroy_room env ps os w r)
unfolding destroy_room
destroy_room-Shrinks env ps os w r =
    let w₁ = game_over env w r in
    let w₂ = leave_all env w₁ r ps in
    Shrinks-trans (Shrinks-trans (game_over-Shrinks env w r) (leave_all-Shrinks env r ps w₁))
      (unwatch_all-Shrinks w₂ r os)

-- ===== src/System/Games.antt =====
-- Games and sessions (src/server/room.cpp, serverplayer.cpp): who is in the seats does not change
-- when a game starts or ends, and the end of a player or a room only empties seats.
use free_kill.Server.Ban
use free_kill.Base.{
  leb, Bool-cases, length, ℕ, String, refl, inl, inr, true, false, not, ◌&&◌, Option, none, some,
  List, [], ◌∷◌, arith,
}
use free_kill.Room.Game.{
  get_peer_address, Lists, add_if, make_ready, prepare, warn_shared, manually_start, record_game,
  record_games, tell_time, dismiss, dismiss_all, delete_all, game_over,
}
use free_kill.Base.Int.{is_positive, is_negative, pos}
use free_kill.Json.{array, num}
use free_kill.Player.{state_beq, offline}
use free_kill.World.{set_room, setting, json, Payload, World, Env}
use free_kill.World.Notify.{do_notify, do_broadcast_notify}
use free_kill.ServerPlayer.Status.{get_game_time}
use free_kill.Room.Basics.{is_full, get_other_players}
use free_kill.Room.Stats.{add_run_rate}
use free_kill.System.Shrinks.{
  Shrinks-refl, Shrinks-trans, still, set_room-Shrinks, if-Shrinks, set_ready-Shrinks, Shrinks,
}
use free_kill.System.Leaving.{temporarily_ban-Shrinks}

make_ready-Shrinks : (w : World) (p : ℕ) → Shrinks w (make_ready w p)
make_ready-Shrinks w p = Shrinks-trans (set_ready-Shrinks w p false) (still refl)

prepare-Shrinks :
    (env : Env) (w : World) (us is : Lists) (ps : List ℕ) → Shrinks w (prepare env w us is ps).0
unfolding prepare
prepare-Shrinks env w us is [] = Shrinks-refl w
prepare-Shrinks env w us is (p ∷ ps) =
    let w₁ = make_ready w p in
    let v = w₁.player p in
    elim (Bool-cases (is_negative v.id)) [
      | inl e ↦ rw e (Shrinks-trans (make_ready-Shrinks w p) (prepare-Shrinks env w₁ us is ps))
      | inr e ↦ rw e (
          Shrinks-trans (make_ready-Shrinks w p) (
            prepare-Shrinks env w₁ (add_if env v.uuid v.screen_name us)
              (add_if env (get_peer_address w₁ v.id) v.screen_name is) ps))
    ]

warn_shared-Shrinks :
    (m : Lists) (w : World) (r : ℕ) (label : String) → Shrinks w (warn_shared w r label m)
unfolding warn_shared do_broadcast_notify
warn_shared-Shrinks [] w r label = Shrinks-refl w
warn_shared-Shrinks ((k, names) ∷ m) w r label =
    Shrinks-trans (if-Shrinks (leb (length names) 1) (Shrinks-refl w) (still refl))
      (warn_shared-Shrinks m _ r label)

pub manually_start-Shrinks : (env : Env) (w : World) (r : ℕ) → Shrinks w (manually_start env w r)
unfolding manually_start
manually_start-Shrinks env w r =
    let ready_ = prepare env w [] [] (w.room r).players in
    let w₂ = warn_shared ready_.0 r "*WARN* Same IP address: [" ready_.2 in
    let w₃ = warn_shared w₂ r "*WARN* Same device id: [" ready_.1 in
    let a : Shrinks w w₃ = Shrinks-trans (prepare-Shrinks env w [] [] (w.room r).players) (
      Shrinks-trans (warn_shared-Shrinks ready_.2 ready_.0 r _)
        (warn_shared-Shrinks ready_.1 w₂ r _)) in
    let b = set_room-Shrinks w₃ r (record (w₃.room r) { game_started = true }) refl (omega arith) in
    if-Shrinks (is_full (w.room r) && not (w.room r).game_started)
      (Shrinks-trans (Shrinks-trans a b) (still refl)) (Shrinks-refl w)

record_game-Shrinks : (m : String) (w : World) (p : ℕ) → Shrinks w (record_game m w p)
unfolding record_game add_run_rate
record_game-Shrinks m w p =
    Shrinks-trans (if-Shrinks (is_positive (w.player p).id) (still refl) (Shrinks-refl w))
      (if-Shrinks (state_beq (w.player p).state offline) (still refl) (Shrinks-refl _))

record_games-Shrinks : (m : String) (w : World) (ps : List ℕ) → Shrinks w (record_games m w ps)
unfolding record_games
record_games-Shrinks m w [] = Shrinks-refl w
record_games-Shrinks m w (p ∷ ps) =
    Shrinks-trans (record_game-Shrinks m w p) (record_games-Shrinks m (record_game m w p) ps)

tell_time-Shrinks : (w : World) (o : Option ℕ) (t : ℕ) (b : Payload) → Shrinks w (tell_time w o t b)
unfolding do_notify
tell_time-Shrinks w none t b = Shrinks-refl w
tell_time-Shrinks w (some q) t b = still refl

dismiss-Shrinks : (env : Env) (w : World) (r p : ℕ) → Shrinks w (dismiss env w r p)
unfolding dismiss do_broadcast_notify
dismiss-Shrinks env w r p =
    let told = get_game_time w p in
    let body = json (array (num (w.player p).id ∷ num (pos told) ∷ [])) in
    let w₀ = do_broadcast_notify w (get_other_players (w.room r) p) "AddTotalGameTime" body in
    let a : Shrinks w w₀ = still refl in
    Shrinks-trans
      (if-Shrinks (is_positive (w.player p).id)
        (Shrinks-trans a (tell_time-Shrinks w₀ (Ban.find_player w₀ (w.player p).id) told body))
        (Shrinks-refl w))
      (if-Shrinks (state_beq _ offline) (temporarily_ban-Shrinks env _ _) (Shrinks-refl _))

dismiss_all-Shrinks :
    (env : Env) (w : World) (r : ℕ) (ps : List ℕ) → Shrinks w (dismiss_all env w r ps).0
unfolding dismiss_all
dismiss_all-Shrinks env w r [] = Shrinks-refl w
dismiss_all-Shrinks env w r (p ∷ ps) =
    Shrinks-trans (dismiss-Shrinks env w r p) (dismiss_all-Shrinks env (dismiss env w r p) r ps)

pub game_over-Shrinks : (env : Env) (w : World) (r : ℕ) → Shrinks w (game_over env w r)
unfolding game_over
game_over-Shrinks env w r =
    let over = record (w.room r) {
      inside_game_over = true;
      game_started = false;
      runned_players = [];
    } in
    let w₁ = set_room w r over in
    let w₂ = record_games (setting env (w.room r).settings "gameMode") w₁ (w.room r).players in
    let out = dismiss_all env w₂ r (w.room r).players in
    let w₄ = delete_all out.0 out.1 in
    let a : Shrinks w w₁ = set_room-Shrinks w r over refl (omega arith) in
    let b : Shrinks w₁ w₂ = record_games-Shrinks _ w₁ (w.room r).players in
    let c : Shrinks w₂ out.0 = dismiss_all-Shrinks env w₂ r (w.room r).players in
    let d : Shrinks out.0 w₄ = still refl in
    let e =
      set_room-Shrinks w₄ r (record (w₄.room r) { inside_game_over = false }) refl (omega arith) in
    if-Shrinks (not (w.room r).game_started) (Shrinks-refl w)
      (Shrinks-trans (Shrinks-trans (Shrinks-trans (Shrinks-trans a b) c) d) e)

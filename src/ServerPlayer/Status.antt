-- ===== src/ServerPlayer/Status.antt =====
-- ServerPlayer's slots for a changed state or readiness, and its game timer
-- (src/server/serverplayer.cpp), with the setters of Player that emit the signals (player.cpp).
use free_kill.Base.{if◌then◌else◌, ℕ, ◌+◌, ◌-◌, ◌/◌, Bool, [], ◌∷◌}
use free_kill.Json.{array, bool, num, str}
use free_kill.Player.{state_string, State}
use free_kill.World.{
  set_player, set_base, is_online, Place, ServerPlayer, World, lobby, in_room, json,
}
use free_kill.World.Notify.{do_broadcast_notify}
use free_kill.Room.Basics.{is_abandoned}

abbrev pub start_game_timer : World → ℕ → World
start_game_timer w p = set_player w p (record (w.player p) { game_time = 0; timer_start = w.clock })

abbrev elapsed : World → ServerPlayer → ℕ
elapsed w p = (w.clock - p.timer_start) / 1000

unfoldable pub pause_game_timer : World → ℕ → World
pause_game_timer w p =
    set_player w p
      (record (w.player p) { game_time = (w.player p).game_time + elapsed w (w.player p) })

unfoldable pub resume_game_timer : World → ℕ → World
resume_game_timer w p = set_player w p (record (w.player p) { timer_start = w.clock })

pub get_game_time : World → ℕ → ℕ
get_game_time w p =
    let v = w.player p in v.game_time + (if is_online v.state then elapsed w v else 0)

-- onStateChanged once the room is known
abbrev state_changed_in : World → ℕ → Place → World
state_changed_in w p lobby = w
state_changed_in w p (in_room r) =
    if is_abandoned w (w.room r)
    then w
    else (let v = w.player p in
        let w₁ =
          do_broadcast_notify w (w.room r).players "NetStateChanged"
            (json (array (num v.id ∷ str (state_string v.state) ∷ []))) in
        if is_online v.state then resume_game_timer w₁ p else pause_game_timer w₁ p)

unfoldable pub on_state_changed : World → ℕ → World
on_state_changed w p = state_changed_in w p (w.player p).room

unfoldable pub set_state : World → ℕ → State → World
set_state w p s = on_state_changed (set_base w p (record (w.player p).base { state = s })) p

abbrev ready_changed_in : World → ℕ → Place → World
ready_changed_in w p lobby = w
ready_changed_in w p (in_room r) =
    do_broadcast_notify w (w.room r).players "ReadyChanged"
      (json (array (num (w.player p).id ∷ bool (w.player p).ready ∷ [])))

unfoldable pub on_ready_changed : World → ℕ → World
on_ready_changed w p = ready_changed_in w p (w.player p).room

unfoldable pub set_ready : World → ℕ → Bool → World
set_ready w p b = on_ready_changed (set_base w p (record (w.player p).base { ready = b })) p

-- ===== src/System/Refresh.antt =====
-- refreshMd5 (src/server/server.cpp): the players of outdated rooms are turned out.
use free_kill.System.Creation.{thread_is_outdated-Shrinks}
use free_kill.Base.{is_empty, int_eq, nat_eq, string_eq, ℕ, String, refl, not, ◌&&◌, List, [], ◌∷◌}
use free_kill.World.{World, Env}
use free_kill.World.Notify.{do_broadcast_notify}
use free_kill.Room.Basics.{is_outdated, thread_is_outdated}
use free_kill.ServerPlayer.Disconnect.{kick}
use free_kill.Server.Rooms.{refresh_rooms, refresh_threads, kick_all, refresh_md5}
use free_kill.System.Shrinks.{
  Shrinks-refl, Shrinks-trans, still, if-Shrinks, is_outdated-Shrinks, Shrinks,
}
use free_kill.System.Leaving.{kick-Shrinks}
use free_kill.System.RoomPackets.{turn_out-Shrinks}

refresh_rooms-Shrinks : (env : Env) (rs : List ℕ) (w : World) → Shrinks w (refresh_rooms env w rs)
unfolding refresh_rooms do_broadcast_notify
refresh_rooms-Shrinks env [] w = Shrinks-refl w
refresh_rooms-Shrinks env (r ∷ rs) w =
    let asked = is_outdated w r in
    Shrinks-trans
      (Shrinks-trans (is_outdated-Shrinks w r) (
        if-Shrinks (not asked.0) (Shrinks-refl asked.1) (
          if-Shrinks (not (asked.1.room r).game_started) (turn_out-Shrinks env _ asked.1)
            (still refl))))
      (refresh_rooms-Shrinks env rs _)

refresh_threads-Shrinks : (ts : List ℕ) (w : World) → Shrinks w (refresh_threads w ts)
unfolding refresh_threads
refresh_threads-Shrinks [] w = Shrinks-refl w
refresh_threads-Shrinks (t ∷ ts) w =
    let asked = thread_is_outdated w t in
    Shrinks-trans
      (Shrinks-trans (thread_is_outdated-Shrinks w t) (
        if-Shrinks (asked.0 && is_empty (asked.1.thread t).rooms) (still refl)
          (Shrinks-refl asked.1)))
      (refresh_threads-Shrinks ts _)

kick_all-Shrinks : (env : Env) (ps : List ℕ) (w : World) → Shrinks w (kick_all env w ps)
kick_all-Shrinks env [] w = Shrinks-refl w
kick_all-Shrinks env (p ∷ ps) w =
    Shrinks-trans (kick-Shrinks env w p) (kick_all-Shrinks env ps (kick env w p))

pub refresh_md5-Shrinks : (env : Env) (w : World) (sum : String) → Shrinks w (refresh_md5 env w sum)
unfolding refresh_md5
refresh_md5-Shrinks env w sum =
    let w₀ = record w { md5 = sum } in
    let a : Shrinks w w₀ = still refl in
    let w₁ = refresh_rooms env w₀ w.rooms in
    let w₂ = refresh_threads w₁ w₁.threads in
    Shrinks-trans
      (Shrinks-trans (Shrinks-trans a (refresh_rooms-Shrinks env w.rooms w₀))
        (refresh_threads-Shrinks w₁.threads w₁))
      (kick_all-Shrinks env w₂.lobby_players w₂)

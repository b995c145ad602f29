-- ===== src/Room/Basics.antt =====
-- Room's properties and its line to the thread (src/server/room.cpp), RoomBase's look-ups
-- (roombase.cpp) and RoomThread (roomthread.cpp).
use free_kill.Base.{
  if◌then◌else◌, length, is_empty, ◌==◌, nat_eq, string_eq, int_eq, remove_one, ℕ, String, Bool,
  true, false, not, ◌&&◌, ◌||◌, Option, none, some, List, [], ◌∷◌, ◌++◌,
}
use free_kill.Base.Int.{pred, successor, leb_ℤ, ℤ, pos}
use free_kill.Json.{array, num}
use free_kill.World.{
  set_room, set_thread, is_online, Room, RoomThread, ThreadSignal, World, json, pushes_request,
  wakes_up, delays,
}
use free_kill.World.Notify.{do_broadcast_notify, update_online_info}

unfoldable pub is_full : Room → Bool
is_full r = pos (length r.players) == r.capacity

unfoldable pub any_online : World → List ℕ → Bool
any_online w [] = false
any_online w (p ∷ ps) = is_online (w.player p).state || any_online w ps

unfoldable pub is_abandoned : World → Room → Bool
is_abandoned w r = if is_empty r.players then true else not (any_online w r.players)

pub get_other_players : Room → ℕ → List ℕ
get_other_players r p = remove_one r.players p

-- findPlayer: the first with the id, or null
unfoldable pub find_player : World → List ℕ → ℤ → Option ℕ
find_player w [] i = none
find_player w (p ∷ ps) i = if (w.player p).id == i then some p else find_player w ps i

abbrev pub signal : World → ℕ → ThreadSignal → World
signal w t s = record w { signals = w.signals ++ (t, s) ∷ [] }

-- pushRequest(QString("%1,text").arg(i)): the thread gets "<room id>,<i>,<text>".
unfoldable pub push_request : World → ℕ → ℤ → String → World
push_request w r i s = signal w (w.room r).thread (pushes_request (w.room r).id i s)

unfoldable pub delay : World → ℕ → ℤ → World
delay w r ms = signal w (w.room r).thread (delays (w.room r).id ms)

-- RoomThread::wakeUp for a room
unfoldable pub wake_up : World → ℕ → String → World
wake_up w r reason = signal w (w.room r).thread (wakes_up (w.room r).id reason)

unfoldable pub set_owner : World → ℕ → Option ℕ → World
set_owner w r none = set_room w r (record (w.room r) { owner = none })
set_owner w r (some p) =
    do_broadcast_notify (set_room w r (record (w.room r) { owner = some p })) (w.room r).players
      "RoomOwner" (json (array (num (w.player p).id ∷ [])))

-- The room's own mark is cleared once it differs, so that it stays outdated.
unfoldable pub is_outdated : World → ℕ → Bool × World
is_outdated w r =
    if (w.room r).md5 == w.md5
    then (false, w)
    else (true, set_room w r (record (w.room r) { md5 = "" }))

abbrev pub add_reject_id : World → ℕ → ℤ → World
add_reject_id w r i =
    set_room w r (record (w.room r) { rejected_players = (w.room r).rejected_players ++ i ∷ [] })

abbrev pub remove_reject_id : World → ℕ → ℤ → World
remove_reject_id w r i =
    set_room w r (record (w.room r) { rejected_players = remove_one (w.room r).rejected_players i })

-- RoomThread::isFull
pub thread_is_full : RoomThread → Bool
thread_is_full t = leb_ℤ t.capacity (pos (length t.rooms))

-- RoomThread::isOutdated
unfoldable pub thread_is_outdated : World → ℕ → Bool × World
thread_is_outdated w t =
    if (w.thread t).md5 == w.md5
    then (false, w)
    else (true, set_thread w t (record (w.thread t) { md5 = "" }))

-- RoomThread::onRoomAbandoned; removeRoom takes the room out of the server's map.
unfoldable pub on_room_abandoned : World → ℕ → World
on_room_abandoned w r =
    let w₁ = update_online_info (record w { rooms = remove_one w.rooms r }) in
    if (w₁.room r).lua_ref_count == pos 0
    then record w₁ { deleted_rooms = w₁.deleted_rooms ++ r ∷ [] }
    else signal w₁ (w₁.room r).thread (wakes_up (w₁.room r).id "abandon")

-- increaseRefCount, decreaseRefCount
abbrev pub increase_ref_count : World → ℕ → World
increase_ref_count w r =
    set_room w r (record (w.room r) { lua_ref_count = successor (w.room r).lua_ref_count })

unfoldable pub decrease_ref_count : World → ℕ → World
decrease_ref_count w r =
    let count = pred (w.room r).lua_ref_count in
    let w₁ = set_room w r (record (w.room r) { lua_ref_count = count }) in
    if count == pos 0 && (w.room r).abandoned
    then record w₁ { deleted_rooms = w₁.deleted_rooms ++ r ∷ [] }
    else w₁

-- setRequestTimer, destroyRequestTimer; the timer wakes the room up under the name "request_timer".
abbrev pub set_request_timer : World → ℕ → ℕ → World
set_request_timer w r ms = set_room w r (record (w.room r) { request_timer = some ms })

abbrev pub destroy_request_timer : World → ℕ → World
destroy_request_timer w r = set_room w r (record (w.room r) { request_timer = none })

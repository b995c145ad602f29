-- ===== src/System/Creation.antt =====
-- createRoom (src/server/server.cpp) keeps the rooms sound: a new room is empty and has a new number.
use free_kill.Server.Ban
use free_kill.Room.Joining
use free_kill.Room.Joining.{take_seat, introduction}
use free_kill.Base.{
  count-append, if◌then◌else◌, nat_beq_iff, Bool-cases, ◌==◌, int_eq, nat_eq, string_eq, ℕ, String,
  ◌≡◌, refl, inl, inr, Bool, true, false, not, Option, none, some, List, [], ◌∷◌, arith,
}
use free_kill.Server.Rooms.{
  new_thread, find_thread, insert_room, refuse_name, with_thread, create_room,
}
use free_kill.Base.Int.{ℤ, pos, negsuc}
use free_kill.World.{World, Env}
use free_kill.World.Notify.{do_notify}
use free_kill.Room.Basics.{thread_is_full, thread_is_outdated}
use free_kill.Room.Joining.{new_server_player, create, make_robot, is_owner, add_robot}
use free_kill.System.Shrinks.{Shrinks-refl, Shrinks-trans, still, set_owner-Shrinks, Shrinks}
use free_kill.System.Bounded.{
  is_bounded, Keeps, Keeps-trans, Shrinks-Keeps, if-Keeps, add_player-Keeps,
}

pub thread_is_outdated-Shrinks : (w : World) (t : ℕ) → Shrinks w (thread_is_outdated w t).1
unfolding thread_is_outdated
thread_is_outdated-Shrinks w t = elim (Bool-cases ((w.thread t).md5 == w.md5)) [
  | inl e ↦ rw e (Shrinks-refl w)
  | inr e ↦ rw e (still refl)
]

if_pair-Shrinks :
    {w : World} (t : Bool) (a b : Option ℕ × World)
    → Shrinks w a.1
    → Shrinks w b.1
    → Shrinks w (if t then a else b).1
if_pair-Shrinks true a b x y = x
if_pair-Shrinks false a b x y = y

find_thread-Shrinks : (ts : List ℕ) (w : World) → Shrinks w (find_thread w ts).1
unfolding find_thread
find_thread-Shrinks [] w = Shrinks-refl w
find_thread-Shrinks (t ∷ ts) w =
    let found = thread_is_outdated w t in
    let a : Shrinks w found.1 = thread_is_outdated-Shrinks w t in
    if_pair-Shrinks (thread_is_full (w.thread t)) _ _ (find_thread-Shrinks ts w)
      (if_pair-Shrinks found.0 _ _ (Shrinks-trans a (find_thread-Shrinks ts found.1)) a)

with_thread-Shrinks :
    {w : World} (found : Option ℕ × World) → Shrinks w found.1 → Shrinks w (with_thread found).1
unfolding new_thread
with_thread-Shrinks (some t, w₁) s = s
with_thread-Shrinks (none, w₁) s = Shrinks-trans s (still refl)

-- A new room is empty.
insert_room-bounded :
    (w : World) (t : ℕ) (name : String) (c timeout : ℤ) (settings : String) (q : ℕ)
    → is_bounded (w.room q) ≡ true
    → is_bounded ((insert_room w t name c timeout settings).room q) ≡ true
unfolding insert_room
insert_room-bounded w t name (pos c) timeout settings q h = ground arith
insert_room-bounded w t name (negsuc c) timeout settings q h = ground arith

insert_room-Keeps :
    (w : World) (t : ℕ) (name : String) (c timeout : ℤ) (settings : String)
    → Keeps w (insert_room w t name c timeout settings)
unfolding insert_room
insert_room-Keeps w t name c timeout settings = record {
  keeps = λ h. record {
    bounded = λ q. insert_room-bounded w t name c timeout settings q (h.bounded q);
    fresh = λ q above.
        let before = h.fresh q (omega (arith, above)) in
        ground (
          arith,
          above,
          before,
          count-append q w.rooms (w.next_room_id ∷ []),
          nat_beq_iff w.next_room_id q,
        );
    once = λ q. ground (
      arith,
      h.once q,
      h.fresh q,
      count-append q w.rooms (w.next_room_id ∷ []),
      nat_beq_iff w.next_room_id q,
    );
  };
}

refuse_name-Shrinks : (w : World) (o : Option ℕ) → Shrinks w (refuse_name w o)
unfolding do_notify
refuse_name-Shrinks w none = Shrinks-refl w
refuse_name-Shrinks w (some p) = still refl

pub create_room-Keeps :
    (env : Env) (w : World) (owner : Option ℕ) (name : String) (c timeout : ℤ) (settings : String)
    → Keeps w (create_room env w owner name c timeout settings)
unfolding create_room
create_room-Keeps env w owner name c timeout settings =
    let found = with_thread (find_thread w w.threads) in
    let w₁ = found.1 in
    let r = w₁.next_room_id in
    let w₂ = insert_room w₁ found.0 name c timeout settings in
    let w₃ = Joining.add_player env w₂ r owner in
    if-Keeps (not (Ban.check_ban_word w name)) (Shrinks-Keeps (refuse_name-Shrinks w owner)) (
      Keeps-trans
        (Keeps-trans
          (Keeps-trans (Shrinks-Keeps (with_thread-Shrinks _ (find_thread-Shrinks w.threads w)))
            (insert_room-Keeps w₁ found.0 name c timeout settings))
          (add_player-Keeps env w₂ r owner))
        (Shrinks-Keeps (set_owner-Shrinks w₃ r owner)))

-- ===== src/Room/References.antt =====
-- How long an abandoned room lives: RoomThread::onRoomAbandoned (src/server/roomthread.cpp) with
-- increaseRefCount and decreaseRefCount, which Lua calls (room.cpp).
use free_kill.Base.{
  int_eq, nat_eq, string_eq, count, count-append, ℕ, zero, suc, ◌+◌, ◌≡◌, true, List, [], ◌∷◌,
  arith,
}
use free_kill.Base.Int.{pos}
use free_kill.World.{World}
use free_kill.World.Notify.{update_online_info}
use free_kill.Room.Basics.{on_room_abandoned, increase_ref_count, decrease_ref_count}

-- Lua takes a reference to a room, or gives one back.
pub data RefChange : Type 0 where
  hold release : RefChange

abbrev pub change_ref : World → ℕ → RefChange → World
change_ref w r hold = increase_ref_count w r
change_ref w r release = decrease_ref_count w r

abbrev pub change_refs : World → ℕ → List RefChange → World
change_refs w r [] = w
change_refs w r (c ∷ cs) = change_refs (change_ref w r c) r cs

-- From `n` references on, the changes keep at least one, and leave `m`.
abbrev pub KeepsOne : ℕ → List RefChange → ℕ → Type 0
KeepsOne n [] m = n ≡ m
KeepsOne n (hold ∷ cs) m = KeepsOne (suc n) cs m
KeepsOne (suc (suc n)) (release ∷ cs) m = KeepsOne (suc n) cs m
KeepsOne _ (release ∷ cs) m = ⊥

-- What the room's life depends on.
record IsHeld (w : World) (r n d : ℕ) : Type 0 where
  refs : (w.room r).lua_ref_count ≡ pos n
  abandoned : (w.room r).abandoned ≡ true
  deletions : count r w.deleted_rooms ≡ d

hold-IsHeld : (w : World) (r n d : ℕ) → IsHeld w r n d → IsHeld (change_ref w r hold) r (suc n) d
hold-IsHeld w r n d h = record {
  refs = ground (arith, h.refs);
  abandoned = ground (arith, h.abandoned);
  deletions = h.deletions;
}

release-IsHeld :
    (w : World) (r n d : ℕ)
    → IsHeld w r (suc (suc n)) d
    → IsHeld (change_ref w r release) r (suc n) d
unfolding decrease_ref_count
release-IsHeld w r n d h = record {
  refs = ground (arith, h.refs);
  abandoned = ground (arith, h.abandoned);
  deletions = ground (arith, h.deletions, h.refs);
}

change_refs-IsHeld :
    (w : World) (r n d : ℕ) (cs : List RefChange) (m : ℕ)
    → IsHeld w r (suc n) d
    → KeepsOne (suc n) cs m
    → IsHeld (change_refs w r cs) r m d
change_refs-IsHeld w r n d [] m h k = rw (← k) h
change_refs-IsHeld w r n d (hold ∷ cs) m h k =
    change_refs-IsHeld (change_ref w r hold) r (suc n) d cs m (hold-IsHeld w r (suc n) d h) k
change_refs-IsHeld w r zero d (release ∷ cs) m h k = absurd k
change_refs-IsHeld w r (suc n) d (release ∷ cs) m h k =
    change_refs-IsHeld (change_ref w r release) r n d cs m (release-IsHeld w r n d h) k

abandon-IsHeld :
    (w : World) (r n : ℕ)
    → (w.room r).lua_ref_count ≡ pos (suc n)
    → (w.room r).abandoned ≡ true
    → IsHeld (on_room_abandoned w r) r (suc n) (count r w.deleted_rooms)
unfolding on_room_abandoned update_online_info
abandon-IsHeld w r n e a = record {
  refs = ground (arith, e);
  abandoned = ground (arith, a, e);
  deletions = ground (arith, e);
}

last_release :
    (w : World) (r d : ℕ) → IsHeld w r 1 d → count r (decrease_ref_count w r).deleted_rooms ≡ d + 1
unfolding decrease_ref_count
last_release w r d h =
    ground (arith, h.refs, h.abandoned, h.deletions, count-append r w.deleted_rooms (r ∷ []))

-- An abandoned room that Lua holds references to is not given away to be deleted while one is left,
-- however Lua takes and gives back references; when the last is given back it is, once.
pub abandoned_room_deleted :
    (w : World) (r n : ℕ) (cs : List RefChange)
    → (w.room r).lua_ref_count ≡ pos (suc n)
    → (w.room r).abandoned ≡ true
    → KeepsOne (suc n) cs 1
    → (count r (change_refs (on_room_abandoned w r) r cs).deleted_rooms ≡ count r w.deleted_rooms)
      × (count r (decrease_ref_count (change_refs (on_room_abandoned w r) r cs) r).deleted_rooms
          ≡ count r w.deleted_rooms + 1)
abandoned_room_deleted w r n cs e a k =
    let held =
      change_refs-IsHeld (on_room_abandoned w r) r n (count r w.deleted_rooms) cs 1
        (abandon-IsHeld w r n e a) k in
    (held.deletions, last_release _ r _ held)

-- ===== src/Lua/Contention.antt =====
-- What the lock of the interpreter (src/core/c-wrapper.cpp) gives threads that call one after the
-- other, and threads whose calls overlap.
use free_kill.Base.{
  if◌then◌else◌, nat_beq_iff, Option-cases, ◌==◌, int_eq, nat_eq, string_eq, beq_refl, ℕ, ◌+◌, ◌≡◌,
  refl, inl, inr, Bool, true, false, none, some, List, [], ◌∷◌, arith,
}
use free_kill.Lua.Lock.{
  fresh, is_thread, enter_call, acquire, leave_call, busy, IsOrderly, LockState, LockStep, Threads,
  OrderlyThreads, enter, acquires, leave, here, later, begun, then_step,
}

abbrev takers : List Bool → ℕ
takers [] = 0
takers (b ∷ bs) = (if b then 1 else 0) + takers bs

-- The mutex is held by the thread one of whose calls took it.
abbrev IsOwned : LockState → ℕ → Type 0
IsOwned s k = takers (s.frames k) ≡ (if is_thread s.holder k then 1 else 0)

LockStep-IsOwned :
    {s t : LockState} → LockStep s t → ((k : ℕ) → IsOwned s k) → (k : ℕ) → IsOwned t k
unfolding enter_call acquire leave_call
LockStep-IsOwned {s} (enter i w) own k = ground (arith, own k, own i)
LockStep-IsOwned {s} (acquires i w e) own k = ground (arith, own k, own i)
LockStep-IsOwned {s} (leave i b r w e) own k = ground (arith, own k, own i)

Threads-IsOwned : {s t : LockState} → Threads s t → ((k : ℕ) → IsOwned s k) → (k : ℕ) → IsOwned t k
Threads-IsOwned here own = own
Threads-IsOwned (later r st) own = LockStep-IsOwned st (Threads-IsOwned r own)

fresh-IsOwned : (k : ℕ) → IsOwned fresh k
fresh-IsOwned k = refl

record IsStuck (i j : ℕ) (s : LockState) : Type 0 where
  owned : (k : ℕ) → IsOwned s k
  held : s.holder ≡ some i
  first : s.waiting i ≡ true
  second : s.waiting j ≡ true

LockStep-IsStuck : {i j : ℕ} {s t : LockState} → LockStep s t → IsStuck i j s → IsStuck i j t
unfolding enter_call acquire leave_call
LockStep-IsStuck {i} {j} {s} (enter k w) stuck = record {
  owned = LockStep-IsOwned {s = s} (enter k w) stuck.owned;
  held = ground (arith, stuck.held);
  first = ground (arith, stuck.first);
  second = ground (arith, stuck.second);
}
LockStep-IsStuck (acquires k w e) stuck = cc (stuck.held, e)
LockStep-IsStuck {i} {j} {s} (leave k b r w e) stuck = record {
  owned = LockStep-IsOwned {s = s} (leave k b r w e) stuck.owned;
  held = ground (arith, stuck.held, stuck.first, stuck.owned k);
  first = stuck.first;
  second = stuck.second;
}

Threads-IsStuck : {i j : ℕ} {s t : LockState} → Threads s t → IsStuck i j s → IsStuck i j t
Threads-IsStuck here stuck = stuck
Threads-IsStuck (later r st) stuck = LockStep-IsStuck st (Threads-IsStuck r stuck)

-- Suppose a thread is in a call for which it took the lock, and was the last to begin one. If
-- another thread begins a call and then the first begins one inside its own, both wait, and
-- whatever any thread does then, neither ever gets in.
pub overlapping_deadlock :
    {s t : LockState} (i j : ℕ)
    → Threads fresh s
    → s.holder ≡ some i
    → s.current_thread ≡ some i
    → (i == j) ≡ false
    → s.waiting i ≡ false
    → s.waiting j ≡ false
    → Threads (enter_call (enter_call s j) i) t
    → (t.waiting i ≡ true) × (t.waiting j ≡ true) × (t.holder ≡ some i)
unfolding enter_call
overlapping_deadlock {s} i j r held current ne wi wj more =
    let two = later (later r (enter j wj)) (enter i (ground arith)) in
    let stuck : IsStuck i j _ = record {
      owned = Threads-IsOwned two fresh-IsOwned;
      held = ground arith;
      first = ground arith;
      second = ground arith;
    } in
    let end = Threads-IsStuck more stuck in (end.first, end.second, end.held)

record IsAlone (s : LockState) : Type 0 where
  owned : (k : ℕ) → IsOwned s k
  current : (k : ℕ) → busy s k ≡ true → s.current_thread ≡ some k
  outside : (k : ℕ) → s.waiting k ≡ true → s.frames k ≡ []

LockStep-IsAlone : {s t : LockState} (st : LockStep s t) → IsOrderly st → IsAlone s → IsAlone t
unfolding enter_call acquire leave_call
LockStep-IsAlone {s} (enter i w) quiet alone = record {
  owned = LockStep-IsOwned {s = s} (enter i w) alone.owned;
  current = λ k b. ground (arith, alone.current k, quiet k, nat_beq_iff i k);
  outside = λ k b. ground (arith, alone.outside k, alone.current i, nat_beq_iff i k);
}
LockStep-IsAlone {s} (acquires i w e) quiet alone = record {
  owned = LockStep-IsOwned {s = s} (acquires i w e) alone.owned;
  current = λ k b. ground (arith, alone.current k, nat_beq_iff i k);
  outside = λ k b. ground (arith, alone.outside k, nat_beq_iff i k);
}
LockStep-IsAlone {s} (leave i b r w e) quiet alone = record {
  owned = LockStep-IsOwned {s = s} (leave i b r w e) alone.owned;
  current = λ k c. ground (arith, alone.current k, nat_beq_iff i k);
  outside = λ k c. ground (arith, alone.outside k, nat_beq_iff i k);
}

OrderlyThreads-IsAlone : {s : LockState} → OrderlyThreads s → IsAlone s
OrderlyThreads-IsAlone begun = record {
  owned = fresh-IsOwned;
  current = λ k b. cc;
  outside = λ k b. refl;
}
OrderlyThreads-IsAlone (then_step r st o) = LockStep-IsAlone st o (OrderlyThreads-IsAlone r)

-- As long as no thread begins a call while another is in one, however deep a thread's own calls
-- go, the mutex is free for whoever waits for it, and at most one thread is in a call.
pub orderly_never_blocks :
    {s : LockState}
    → OrderlyThreads s
    → ((i : ℕ) → s.waiting i ≡ true → s.holder ≡ none)
      × ((i j : ℕ) → busy s i ≡ true → busy s j ≡ true → i ≡ j)
orderly_never_blocks {s} r = (
  λ i w. elim (Option-cases s.holder) [
    | inl e ↦ e
    | inr (k, e) ↦ ground (
      arith,
      alone.owned k,
      alone.owned i,
      alone.current k,
      alone.current i (ground arith),
      alone.outside i w,
      beq_refl k,
    )
  ],
  λ i j a b. cc (alone.current i a, alone.current j b),
)
  where
    alone : IsAlone s
    alone = OrderlyThreads-IsAlone r

-- ===== src/Lua/Lock.antt =====
-- The lock of the interpreter (Lua::needLock and the QMutexLocker at the head of dofile, call and
-- eval, src/core/c-wrapper.cpp): threads that enter, get the mutex and leave, in any order. What
-- needLock does is one step; the mutex is not recursive.
use free_kill.Base.{
  ℕ, Bool, true, false, not, ◌||◌, Option, none, some, List, [], ◌∷◌, ◌≡◌, ◌==◌, nat_eq, is_empty,
  if◌then◌else◌,
}
use free_kill.World.{update}

pub record LockState : Type 0 where
  pub current_thread : Option ℕ
  pub holder : Option ℕ  -- of interpreter_lock
  pub waiting : ℕ → Bool  -- for interpreter_lock
  pub frames : ℕ → List Bool  -- the calls a thread is in, innermost first: whether it took the lock

abbrev pub fresh : LockState
fresh = record { current_thread = none; holder = none; waiting = λ i. false; frames = λ i. [] }

abbrev pub is_thread : Option ℕ → ℕ → Bool
is_thread none i = false
is_thread (some j) i = j == i

-- if (current_thread != thr) { current_thread = thr; ret = true; }
unfoldable pub need_lock : LockState → ℕ → Bool × LockState
need_lock s i =
    if is_thread s.current_thread i
    then (false, s)
    else (true, record s { current_thread = some i })

abbrev pub begin : ℕ → Bool × LockState → LockState
begin i (true, s) = record s { waiting = update s.waiting i true }
begin i (false, s) = record s { frames = update s.frames i (false ∷ s.frames i) }

-- A call begins: it waits for the mutex, or is inside at once.
unfoldable pub enter_call : LockState → ℕ → LockState
unfolding need_lock
enter_call s i = begin i (need_lock s i)

unfoldable pub acquire : LockState → ℕ → LockState
acquire s i = record s {
  holder = some i;
  waiting = update s.waiting i false;
  frames = update s.frames i (true ∷ s.frames i);
}

-- The innermost call of a thread ends, the others remaining; its locker unlocks if it locked.
unfoldable pub leave_call : LockState → ℕ → Bool → List Bool → LockState
leave_call s i locked rest = record s {
  holder = if locked then none else s.holder;
  frames = update s.frames i rest;
}

pub data LockStep (s : LockState) : LockState → Type 0 where
  enter : (i : ℕ) → s.waiting i ≡ false → LockStep s (enter_call s i)
  acquires : (i : ℕ) → s.waiting i ≡ true → s.holder ≡ none → LockStep s (acquire s i)
  leave :
      (i : ℕ) (locked : Bool) (rest : List Bool)
      → s.waiting i ≡ false
      → s.frames i ≡ locked ∷ rest
      → LockStep s (leave_call s i locked rest)

pub data Threads (start : LockState) : LockState → Type 0 where
  here : Threads start start
  later : {s t : LockState} → Threads start s → LockStep s t → Threads start t

-- A thread with a call begun and not ended.
abbrev pub busy : LockState → ℕ → Bool
busy s i = s.waiting i || not (is_empty (s.frames i))

-- Steps in which a thread begins a call only while no other thread is in one.
abbrev pub IsOrderly : {s t : LockState} → LockStep s t → Type 0
IsOrderly {s} (enter i _) = (j : ℕ) → (i == j) ≡ false → busy s j ≡ false
IsOrderly (acquires _ _ _) = Unit {0}
IsOrderly (leave _ _ _ _ _) = Unit {0}

pub data OrderlyThreads : LockState → Type 0 where
  begun : OrderlyThreads fresh
  then_step :
      {s t : LockState} → OrderlyThreads s → (st : LockStep s t) → IsOrderly st → OrderlyThreads t

-- ===== src/Tests/LuaRuns.antt =====
-- Runs of the interpreter's wrapper: a table that holds itself, a table with a hole, and threads.
use free_kill.Lua.{
  Table, get_table, push_value, raw_get, put, append_item, read_value, LuaValue, LuaState,
  Interpreter, boolean, integer, string, table, other, invalid, bool, int, double, list, map, empty,
  item, end, entry, returned, read,
}
use free_kill.Lua.Calls.{push_traceback, push_values, call}
use free_kill.Lua.Agreement.{
  entries, elements, denote_table, denote_value, denote, Distinct, StringKeys, ValuesWithin, unseen,
  read_value-denote, IsPlain,
}
use free_kill.Lua.Balance.{call_balanced}
use free_kill.Lua.Leaks.{call_leaks}
use free_kill.Lua.Lock.{
  fresh, enter_call, acquire, busy, LockState, enter, acquires, here, later, begun, then_step,
}
use free_kill.Lua.Contention.{overlapping_deadlock, orderly_never_blocks}
use free_kill.Base.{
  ℕ, zero, suc, ◌<◌, ◌≡◌, refl, Bool, true, false, none, some, List, [], ◌∷◌, ◌++◌, arith,
}
use free_kill.Base.Int.{ℤ, pos}

-- How many integer keys a table has
abbrev sequence_length : Table → ℕ
sequence_length [] = 0
sequence_length ((integer k, v) ∷ t) = suc (sequence_length t)
sequence_length (_ ∷ t) = sequence_length t

abbrev to_nat : ℤ → ℕ
to_nat (pos n) = n
to_nat _ = 0

-- Functions return the first table of the heap; a float's bits are its value.
abbrev interpreter : Interpreter
interpreter = record {
  global = λ h name. other 0;
  field = λ h v name. other 1;
  run = λ h f args. (h, returned (table 0));
  load_file = λ path. other 2;
  load_string = λ code. other 3;
  loads = λ code. true;
  len = sequence_length;
  assign = λ t k v. t ++ (k, v) ∷ [];
  to_float = to_nat;
  userdata = λ p. other p;
}

-- t = { self = t, n = 3, seq = { true } }
abbrev cyclic : List Table
cyclic =
    ((string "self", table 0) ∷ (string "n", integer (pos 3)) ∷ (string "seq", table 1) ∷ [])
    ∷ ((integer (pos 1), boolean true) ∷ [])
    ∷ []

abbrev state : LuaState
state = record { heap = cyclic; stack = integer (pos 7) ∷ [] }

abbrev both : ℕ → Bool
both zero = true
both (suc zero) = true
both (suc (suc p)) = false

cyclic-IsPlain : IsPlain interpreter cyclic both
cyclic-IsPlain = record { exists = exists; closed = closed; distinct = distinct; keyed = keyed }
  where
    exists : (p : ℕ) → both p ≡ true → p < 2
    exists zero h = omega arith
    exists (suc zero) h = omega arith
    exists (suc (suc p)) h = cc

    closed : (p : ℕ) → both p ≡ true → ValuesWithin both (get_table cyclic p)
    closed zero h = (refl, (tt, (refl, tt)))
    closed (suc zero) h = (tt, tt)
    closed (suc (suc p)) h = cc

    distinct : (p : ℕ) → both p ≡ true → Distinct (get_table cyclic p)
    distinct zero h = ((refl, (refl, tt)), ((refl, tt), (tt, tt)))
    distinct (suc zero) h = (tt, tt)
    distinct (suc (suc p)) h = cc

    keyed :
        (p : ℕ)
        → both p ≡ true
        → sequence_length (get_table cyclic p) ≡ 0
        → StringKeys (get_table cyclic p)
    keyed zero h e = tt
    keyed (suc zero) h e = omega arith
    keyed (suc (suc p)) h e = cc

read_value-denote_example :
    read_value 3 interpreter cyclic (λ p. false) (table 0 ∷ [])
    ≡ read (denote 3 interpreter cyclic (λ p. false) (table 0)) (table 0 ∷ [])
unfolding unseen
read_value-denote_example =
    read_value-denote interpreter cyclic both cyclic-IsPlain 3 (λ p. false) (table 0) [] refl
      (omega arith)

-- { self = undefined, n = 3.0, seq = [ true ] }
cyclic_value :
    denote 3 interpreter cyclic (λ p. false) (table 0)
    ≡ map (
        entry "self" invalid
          (entry "n" (double 3) (entry "seq" (list (item (bool true) empty)) end)))
unfolding denote denote_value denote_table entries elements put append_item raw_get
cyclic_value = refl

call_balanced_example :
    call 3 interpreter state "Translate" (int (pos 4) ∷ [])
    ≡ some (
      denote 3 interpreter cyclic (λ p. false) (table 0),
      record { heap = cyclic; stack = integer (pos 7) ∷ [] },
    )
unfolding push_values push_value push_traceback unseen
call_balanced_example =
    call_balanced 3 interpreter state "Translate" (int (pos 4) ∷ [])
      (both, cyclic-IsPlain, refl, omega arith)

-- t = { [5] = true }, which counts no elements
abbrev holed : Interpreter
holed = record interpreter { len = λ t. 0 }

call_leaks_example :
    (tb : LuaValue) × (call 1 holed
        (record { heap = ((integer (pos 5), boolean true) ∷ []) ∷ []; stack = [] })
        "Get"
        []
      ≡ some (
        invalid,
        record { heap = ((integer (pos 5), boolean true) ∷ []) ∷ []; stack = table 0 ∷ tb ∷ [] },
      ))
unfolding push_values push_traceback
call_leaks_example =
    call_leaks 0 holed (record { heap = ((integer (pos 5), boolean true) ∷ []) ∷ []; stack = [] })
      "Get" [] (((integer (pos 5), boolean true) ∷ []) ∷ []) 0 (integer (pos 5)) (boolean true) []
      refl refl refl (λ b. elim b [ ])

-- Thread 1 calls, calls again inside, and comes out; then thread 2 calls.
abbrev nested : LockState
nested = enter_call (acquire (enter_call fresh 1) 1) 1

orderly_never_blocks_example :
    ((i : ℕ) → (enter_call nested 1).waiting i ≡ true → (enter_call nested 1).holder ≡ none)
    × ((i j : ℕ)
        → busy (enter_call nested 1) i ≡ true
        → busy (enter_call nested 1) j ≡ true
        → i ≡ j)
unfolding enter_call acquire
orderly_never_blocks_example = orderly_never_blocks (
    then_step
      (then_step
        (then_step (then_step begun (enter 1 refl) (λ j n. refl)) (acquires 1 refl refl) tt)
        (enter 1 refl) (λ j n. ground (arith, n)))
      (enter 1 refl) (λ j n. ground (arith, n)))

-- Thread 1 is in a call, thread 2 begins one, and thread 1 begins one inside its own.
abbrev crossed : LockState
crossed = enter_call (enter_call (acquire (enter_call fresh 1) 1) 2) 1

overlapping_deadlock_example :
    (crossed.waiting 1 ≡ true) × (crossed.waiting 2 ≡ true) × (crossed.holder ≡ some 1)
unfolding enter_call acquire
overlapping_deadlock_example =
    overlapping_deadlock 1 2 (later (later here (enter 1 refl)) (acquires 1 refl refl)) refl refl
      refl refl refl here

-- ===== src/Lua/Balance.antt =====
-- The stack of the interpreter over Lua::pushValue, dofile, call and eval (src/swig/naturalvar.i,
-- src/core/c-wrapper.cpp).
use free_kill.Base.{
  if◌then◌else◌, Bool-cases, length, drop, ℕ, zero, suc, ◌<◌, String, ◌≡◌, refl, ap, ◌∙◌, inl, inr,
  Bool, false, some, List, [], ◌∷◌,
}
use free_kill.Lua.{
  map, Table, push, new_table, store, settable, push_value, push_items, push_entries, LuaValue,
  Variant, Variants, Entries, LuaState, Called, Interpreter, integer, string, table, invalid, null,
  strange, bool, int, double, text, bytes, list, pointer, empty, item, end, entry, returned, failed,
}
use free_kill.Base.Int.{pos}
use free_kill.Lua.Calls.{
  push_traceback, take_args, end_call, pcall, without_result, end_dofile, dofile, push_values,
  finish, answer, call, eval,
}
use free_kill.Lua.Agreement.{denote, Within, unseen, read_value-denote, IsPlain}

store_lem :
    (i : Interpreter) (l : LuaState) (t : List LuaValue) (v k : LuaValue) (p : ℕ)
    (s : List LuaValue)
    → t ≡ v ∷ k ∷ table p ∷ s
    → (store i l t).stack ≡ table p ∷ s
unfolding store
store_lem i l t v k p s e = rw e refl

mutual
  unfolding push_value push_items push_entries new_table store

  -- pushValue leaves one value more, whatever the variant is.
  pub push_value_one :
      (i : Interpreter) (l : LuaState) (v : Variant)
      → (x : LuaValue) × ((push_value i l v).stack ≡ x ∷ l.stack)
  push_value_one i l invalid = (_, refl)
  push_value_one i l null = (_, refl)
  push_value_one i l strange = (_, refl)
  push_value_one i l (bool b) = (_, refl)
  push_value_one i l (int n) = (_, refl)
  push_value_one i l (double d) = (_, refl)
  push_value_one i l (text s) = (_, refl)
  push_value_one i l (bytes s) = (_, refl)
  push_value_one i l (list vs) =
      (_, push_items_lem i (new_table l) (length l.heap) l.stack 1 vs refl)
  push_value_one i l (map es) =
      (_, push_entries_lem i (new_table l) (length l.heap) l.stack es refl)
  push_value_one i l (pointer p) = (_, refl)

  push_items_lem :
      (i : Interpreter) (l : LuaState) (p : ℕ) (s : List LuaValue) (n : ℕ) (vs : Variants)
      → l.stack ≡ table p ∷ s
      → (push_items i l n vs).stack ≡ table p ∷ s
  push_items_lem i l p s n empty e = e
  push_items_lem i l p s n (item v vs) e =
      let pushed = push_value_one i (push l (integer (pos n))) v in
      let next = push_value i (push l (integer (pos n))) v in
      push_items_lem i (settable i next) p s (suc n) vs (
        store_lem i next next.stack pushed.0 (integer (pos n)) p s
          (pushed.1 ∙ ap (λ r. pushed.0 ∷ integer (pos n) ∷ r) e))

  push_entries_lem :
      (i : Interpreter) (l : LuaState) (p : ℕ) (s : List LuaValue) (es : Entries)
      → l.stack ≡ table p ∷ s
      → (push_entries i l es).stack ≡ table p ∷ s
  push_entries_lem i l p s end e = e
  push_entries_lem i l p s (entry k v es) e =
      let pushed = push_value_one i (push l (string k)) v in
      let next = push_value i (push l (string k)) v in
      push_entries_lem i (settable i next) p s es (
        store_lem i next next.stack pushed.0 (string k) p s
          (pushed.1 ∙ ap (λ r. pushed.0 ∷ string k ∷ r) e))

pub drop-suc : (n : ℕ) (s : List LuaValue) → drop (suc n) s ≡ drop 1 (drop n s)
drop-suc zero s = refl
drop-suc (suc n) [] = refl
drop-suc (suc n) (x ∷ s) = drop-suc n s

-- Below the arguments lies what was on the stack before.
pub drop-push_values :
    (i : Interpreter) (l : LuaState) (vs : List Variant)
    → drop (length vs) (push_values i l vs).stack ≡ l.stack
unfolding push_values
drop-push_values i l [] = refl
drop-push_values i l (v ∷ vs) =
    drop-suc (length vs) (push_values i (push_value i l v) vs).stack
    ∙ ap (drop 1) (drop-push_values i (push_value i l v) vs)
    ∙ ap (drop 1) (push_value_one i l v).1

-- What a call came to has to be read: an error, or a value of plain tables, fewer than the fuel.
abbrev pub PlainResult : Interpreter → ℕ → List Table × Called → Type 0
PlainResult i fuel (h, failed v) = Unit {0}
PlainResult i fuel (h, returned v) =
    (inside : ℕ → Bool) × IsPlain i h inside
    × Within inside v
    × (unseen (λ _. false) (length h) < fuel)

abbrev pub result_of : ℕ → Interpreter → List Table × Called → Variant
result_of fuel i (h, failed v) = invalid
result_of fuel i (h, returned v) = denote fuel i h (λ _. false) v

answer_lem :
    (fuel : ℕ) (i : Interpreter) (l : LuaState) (n : ℕ) (r : List Table × Called) (tb : LuaValue)
    (s : List LuaValue)
    → drop (suc n) l.stack ≡ tb ∷ s
    → PlainResult i fuel r
    → answer fuel i (end_call l n r) ≡ some (result_of fuel i r, record { heap = r.0; stack = s })
unfolding answer end_call finish
answer_lem fuel i l n (h, failed v) tb s e plain = rw e refl
answer_lem fuel i l n (h, returned v) tb s e plain =
    rw
      (read_value-denote i h plain.0 plain.1 fuel (λ _. false) v (drop (suc n) l.stack) plain.2
        plain.3)
      (rw e refl)

pub pcall_lem :
    (i : Interpreter) (l : LuaState) (n : ℕ) (f : LuaValue) (s : List LuaValue)
    → drop n l.stack ≡ f ∷ s
    → pcall i l n ≡ end_call l n (i.run l.heap f (take_args n l.stack))
unfolding pcall
pcall_lem i l n f s e = rw e refl

-- The stack on which `call` runs its function: the arguments on the function on the traceback.
abbrev pub prepared : Interpreter → LuaState → String → List Variant → LuaState
prepared i l func_name params =
    push_values i (push (push_traceback i l) (i.global (push_traceback i l).heap func_name)) params

-- What the Lua function of that name makes of the arguments.
abbrev pub run_function : Interpreter → LuaState → String → List Variant → List Table × Called
run_function i l func_name params =
    i.run (prepared i l func_name params).heap (i.global (push_traceback i l).heap func_name)
      (take_args (length params) (prepared i l func_name params).stack)

-- If the Lua function ends with an error, or returns a value whose tables are plain (they are closed
-- under their values, the keys of one table differ, and those without an array part have string keys
-- only) and fewer than the fuel, then Lua::call answers the variant of that value, or an invalid one
-- after an error, and leaves the stack as it was.
pub call_balanced :
    (fuel : ℕ) (i : Interpreter) (l : LuaState) (func_name : String) (params : List Variant)
    → PlainResult i fuel (run_function i l func_name params)
    → call fuel i l func_name params
      ≡ some (
        result_of fuel i (run_function i l func_name params),
        record { heap = (run_function i l func_name params).0; stack = l.stack },
      )
unfolding call push_traceback
call_balanced fuel i l func_name params plain =
    let below = drop-push_values i _ params in
    ap (answer fuel i) (pcall_lem i (prepared i l func_name params) (length params) _ _ below)
    ∙ answer_lem fuel i (prepared i l func_name params) (length params) _ _ l.stack
        (drop-suc (length params) _ ∙ ap (drop 1) below) plain

ended :
    (i : Interpreter) (l : LuaState) (v : LuaValue) (r : List Table × Called)
    → (end_dofile (without_result (end_call (push (push_traceback i l) v) 0 r))).1.stack ≡ l.stack
unfolding end_dofile end_call push_traceback
ended i l v (h, returned x) = refl
ended i l v (h, failed x) = refl

-- Whether the file loads, and whether it runs, dofile leaves the stack as it was.
pub dofile-stack :
    (i : Interpreter) (l : LuaState) (path : String) → (dofile i l path).1.stack ≡ l.stack
unfolding dofile pcall
dofile-stack i l path = ended i l (i.load_file path) _

-- What the chunk of a code comes to.
abbrev pub run_code : Interpreter → LuaState → String → List Table × Called
run_code i l code = i.run l.heap (i.load_string code) []

-- Lua::eval leaves the stack as it was too, and answers an invalid variant if the code does not load.
pub eval_balanced :
    (fuel : ℕ) (i : Interpreter) (l : LuaState) (code : String)
    → PlainResult i fuel (run_code i l code)
    → eval fuel i l code ≡ (
        if i.loads code
        then some (
          result_of fuel i (run_code i l code),
          record { heap = (run_code i l code).0; stack = l.stack },
        )
        else some (invalid, l))
unfolding eval push_traceback pcall
eval_balanced fuel i l code plain = elim (Bool-cases (i.loads code)) [
  | inl e ↦
      rw e (
        answer_lem fuel i (push (push_traceback i l) (i.load_string code)) 0 _ _ l.stack refl plain)
  | inr e ↦ rw e refl
]

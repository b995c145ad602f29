-- ===== src/Lua/Leaks.antt =====
-- Where Lua::readValue leaves values on the stack of the interpreter (src/swig/naturalvar.i).
use free_kill.Base.{length, drop, ℕ, suc, String, ◌≡◌, refl, ap, ◌∙◌, Bool, some, List, ◌∷◌}
use free_kill.Lua.{
  Table, get_table, next, Reader, visit, read_map, read_table, read_top, read_value, LuaValue,
  Variant, Entries, LuaState, Interpreter, Reading, nil, boolean, integer, float, string, table,
  other, invalid, returned, read, gives,
}
use free_kill.Lua.Calls.{push_traceback, end_call, finish, answer, call}
use free_kill.Lua.Balance.{drop-suc, drop-push_values, pcall_lem, prepared, run_function}

abbrev pub IsStringKey : LuaValue → Type 0
IsStringKey (string k) = Unit {0}
IsStringKey _ = ⊥

visit_bad :
    (rec : Reader) (again : Entries → List LuaValue → Reading) (seen : ℕ → Bool) (m : Entries)
    (b : Bool) (s : List LuaValue) (k v : LuaValue)
    → ¬ IsStringKey k
    → visit rec again seen m b s (gives k v) ≡ read invalid (v ∷ k ∷ s)
unfolding visit
visit_bad rec again seen m b s (string k) v n = absurd (n tt)
visit_bad rec again seen m b s nil v n = refl
visit_bad rec again seen m b s (boolean c) v n = refl
visit_bad rec again seen m b s (integer c) v n = refl
visit_bad rec again seen m b s (float c) v n = refl
visit_bad rec again seen m b s (table c) v n = refl
visit_bad rec again seen m b s (other c) v n = refl

answer_leaks :
    (fuel : ℕ) (i : Interpreter) (l : LuaState) (n : ℕ) (h : List Table) (p : ℕ) (k v : LuaValue)
    (t : Table) (tb : LuaValue) (s : List LuaValue)
    → drop (suc n) l.stack ≡ tb ∷ s
    → get_table h p ≡ (k, v) ∷ t
    → i.len ((k, v) ∷ t) ≡ 0
    → ¬ IsStringKey k
    → answer (suc fuel) i (end_call l n (h, returned (table p)))
      ≡ some (invalid, record { heap = h; stack = table p ∷ tb ∷ s })
unfolding answer end_call finish read_value read_top read_table read_map next
answer_leaks fuel i l n h p k v t tb s d e z bad =
    rw (e, z) (rw (visit_bad (read_value fuel i h) _ _ _ _ _ k v bad) (rw d refl))

-- When the function returns a table without an array part whose first key is no string, readValue
-- returns in the middle of lua_next, and Lua::call leaves two values too many on the stack: the
-- result and the traceback function.
pub call_leaks :
    (fuel : ℕ) (i : Interpreter) (l : LuaState) (func_name : String) (params : List Variant)
    (h : List Table) (p : ℕ) (k v : LuaValue) (t : Table)
    → run_function i l func_name params ≡ (h, returned (table p))
    → get_table h p ≡ (k, v) ∷ t
    → i.len ((k, v) ∷ t) ≡ 0
    → ¬ IsStringKey k
    → (tb : LuaValue) × (call (suc fuel) i l func_name params
        ≡ some (invalid, record { heap = h; stack = table p ∷ tb ∷ l.stack }))
unfolding call push_traceback
call_leaks fuel i l func_name params h p k v t r e z n =
    let below = drop-push_values i _ params in
    (
      _,
      ap (answer (suc fuel) i) (
            pcall_lem i (prepared i l func_name params) (length params) _ _ below
            ∙ ap (end_call (prepared i l func_name params) (length params)) r)
          ∙ answer_leaks fuel i (prepared i l func_name params) (length params) h p k v t _ l.stack
              (drop-suc (length params) _ ∙ ap (drop 1) below) e z n,
    )

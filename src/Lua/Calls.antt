-- ===== src/Lua/Calls.antt =====
-- Lua::dofile, call and eval (src/core/c-wrapper.cpp), on the stack of the interpreter. Each puts
-- debug.traceback below what it runs; lua_pcall leaves one value, the result or the handler's.
use free_kill.Base.{ℕ, String, Bool, true, false, Option, none, some, List, [], ◌∷◌}
use free_kill.Base.{suc, take, drop, length, reverse, if◌then◌else◌}
use free_kill.Lua.{Table, invalid}
use free_kill.Lua.{
  LuaValue, LuaState, Variant, Reading, Interpreter, Called, returned, failed, push, pop, top,
  push_value, read_value, read, panicked, unfinished,
}

-- lua_getglobal("debug"), lua_getfield("traceback"), lua_replace(-2)
unfoldable pub push_traceback : Interpreter → LuaState → LuaState
push_traceback i l = push l (i.field l.heap (i.global l.heap "debug") "traceback")

-- lua_pcall(L, n, 1, …): the function and its `n` arguments give way to one value.
abbrev pub take_args : ℕ → List LuaValue → List LuaValue
take_args n s = reverse (take n s)

pub record Pcall : Type 0 where
  pub state : LuaState
  pub error : Bool

unfoldable pub end_call : LuaState → ℕ → List Table × Called → Pcall
end_call l n (h, returned v) = record {
  state = record { heap = h; stack = v ∷ drop (suc n) l.stack };
  error = false;
}
end_call l n (h, failed v) = record {
  state = record { heap = h; stack = v ∷ drop (suc n) l.stack };
  error = true;
}

unfoldable pub pcall : Interpreter → LuaState → ℕ → Pcall
pcall i l n = end_call l n (i.run l.heap (top (drop n l.stack)) (take_args n l.stack))

-- lua_pcall with no result wanted: the result, if any, is dropped.
abbrev pub without_result : Pcall → Pcall
without_result p = if p.error then p else record p { state = pop 1 p.state }

unfoldable pub end_dofile : Pcall → Bool × LuaState
end_dofile p = if p.error then (false, pop 2 p.state) else (true, pop 1 p.state)

unfoldable pub dofile : Interpreter → LuaState → String → Bool × LuaState
dofile i l path =
    end_dofile (without_result (pcall i (push (push_traceback i l) (i.load_file path)) 0))

unfoldable pub push_values : Interpreter → LuaState → List Variant → LuaState
push_values i l [] = l
push_values i l (v ∷ vs) = push_values i (push_value i l v) vs

-- readValue of the result, then lua_pop(L, 2); none stands for a panic or no end.
unfoldable pub finish : LuaState → Reading → Option (Variant × LuaState)
finish l (read x s) = some (x, pop 2 (record l { stack = s }))
finish l panicked = none
finish l unfinished = none

-- The end of call and eval.
unfoldable pub answer : ℕ → Interpreter → Pcall → Option (Variant × LuaState)
answer fuel i p =
    if p.error
    then some (invalid, pop 2 p.state)
    else finish p.state (read_value fuel i p.state.heap (λ _. false) p.state.stack)

unfoldable pub call :
    ℕ → Interpreter → LuaState → String → List Variant → Option (Variant × LuaState)
call fuel i l func_name params =
    let l₁ = push_traceback i l in
    let l₂ = push l₁ (i.global l₁.heap func_name) in
    answer fuel i (pcall i (push_values i l₂ params) (length params))

unfoldable pub eval : ℕ → Interpreter → LuaState → String → Option (Variant × LuaState)
eval fuel i l code =
    let l₁ = push (push_traceback i l) (i.load_string code) in
    if i.loads code then answer fuel i (pcall i l₁ 0) else some (invalid, pop 2 l₁)

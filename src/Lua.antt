-- ===== src/Lua.antt =====
-- The wrapper of the Lua interpreter: values on Lua's stack, and Lua::pushValue and Lua::readValue
-- (src/swig/naturalvar.i) that carry a QVariant over and back. Calls are the functions of
-- src/core/c-wrapper.cpp on the interpreter, Lock its mutex; Agreement, Balance and Contention are proofs.
pub mod Calls
pub mod Agreement
pub mod Balance
pub mod Leaks
pub mod Lock
pub mod Contention
use free_kill.Base.{
  ℕ, zero, suc, String, Bool, true, false, List, [], ◌∷◌, ◌==◌, nat_eq, int_eq, string_eq, drop,
  length, if◌then◌else◌, ◌++◌, Option, some, none,
}
use free_kill.Base.Int.{ℤ, pos}

-- A value of Lua. A table is named by its number in the heap, a float by its bits; `other` is a
-- function, a userdata or a thread.
pub data LuaValue : Type 0 where
  nil : LuaValue
  boolean : Bool → LuaValue
  integer : ℤ → LuaValue
  float : ℕ → LuaValue
  string : String → LuaValue
  table : ℕ → LuaValue
  other : ℕ → LuaValue

-- A table's pairs of key and value, in the order of lua_next.
abbrev pub Table : Type 0
Table = List (LuaValue × LuaValue)

-- The QVariants that are passed; `pointer` is a Client or a RoomThread, `strange` any other type.
mutual
  pub data Variant : Type 0 where
    invalid null strange : Variant
    bool : Bool → Variant
    int : ℤ → Variant
    double : ℕ → Variant
    text bytes : String → Variant
    list : Variants → Variant
    map : Entries → Variant
    pointer : ℕ → Variant

  pub data Variants : Type 0 where
    empty : Variants
    item : Variant → Variants → Variants

  pub data Entries : Type 0 where
    end : Entries
    entry : String → Variant → Entries → Entries

pub record LuaState : Type 0 where
  pub heap : List Table
  pub stack : List LuaValue  -- the top first

-- What the wrapper asks of the Lua library. A call gives its result, or the value that the message
-- handler made of the error; a load gives the chunk or a message.
pub data Called : Type 0 where
  returned failed : LuaValue → Called

pub record Interpreter : Type 0 where
  pub global : List Table → String → LuaValue
  pub field : List Table → LuaValue → String → LuaValue
  pub run : List Table → LuaValue → List LuaValue → List Table × Called
  pub load_file : String → LuaValue
  pub load_string : String → LuaValue
  pub loads : String → Bool  -- luaL_loadstring gives LUA_OK
  pub len : Table → ℕ  -- lua_len
  pub assign : Table → LuaValue → LuaValue → Table  -- lua_settable
  pub to_float : ℤ → ℕ  -- lua_tonumber of an integer
  pub userdata : ℕ → LuaValue  -- SWIG_NewPointerObj

abbrev pub push : LuaState → LuaValue → LuaState
push l v = record l { stack = v ∷ l.stack }

abbrev pub pop : ℕ → LuaState → LuaState
pop n l = record l { stack = drop n l.stack }

abbrev pub top : List LuaValue → LuaValue
top [] = nil
top (v ∷ s) = v

abbrev pub get_table : List Table → ℕ → Table
get_table [] p = []
get_table (t ∷ h) zero = t
get_table (t ∷ h) (suc p) = get_table h p

abbrev pub set_table : List Table → ℕ → Table → List Table
set_table [] p v = []
set_table (t ∷ h) zero v = v ∷ h
set_table (t ∷ h) (suc p) v = t ∷ set_table h p v

-- rawequal
abbrev pub same : LuaValue → LuaValue → Bool
same nil nil = true
same (boolean true) (boolean b) = b
same (boolean false) (boolean b) = if b then false else true
same (integer a) (integer b) = a == b
same (float a) (float b) = a == b
same (string a) (string b) = a == b
same (table a) (table b) = a == b
same (other a) (other b) = a == b
same _ _ = false

-- lua_newtable
unfoldable pub new_table : LuaState → LuaState
new_table l = record { heap = l.heap ++ [] ∷ []; stack = table (length l.heap) ∷ l.stack }

-- lua_settable(L, -3) on a stack: the key and the value are taken off, which leaves the table.
unfoldable pub store : Interpreter → LuaState → List LuaValue → LuaState
store i l (v ∷ k ∷ table p ∷ s) = record {
  heap = set_table l.heap p (i.assign (get_table l.heap p) k v);
  stack = table p ∷ s;
}
store i l s = record l { stack = drop 2 s }

abbrev pub settable : Interpreter → LuaState → LuaState
settable i l = store i l l.stack

unfoldable mutual
  unfolding store new_table

  pub push_value : Interpreter → LuaState → Variant → LuaState
  push_value i l invalid = push l nil
  push_value i l null = push l nil
  push_value i l strange = push l nil
  push_value i l (bool b) = push l (boolean b)
  push_value i l (int n) = push l (integer n)
  push_value i l (double d) = push l (float d)
  push_value i l (text s) = push l (string s)
  push_value i l (bytes s) = push l (string s)
  push_value i l (list vs) = push_items i (new_table l) 1 vs
  push_value i l (map es) = push_entries i (new_table l) es
  push_value i l (pointer p) = push l (i.userdata p)

  pub push_items : Interpreter → LuaState → ℕ → Variants → LuaState
  push_items i l n empty = l
  push_items i l n (item v vs) =
      push_items i (settable i (push_value i (push l (integer (pos n))) v)) (suc n) vs

  pub push_entries : Interpreter → LuaState → Entries → LuaState
  push_entries i l end = l
  push_entries i l (entry k v es) =
      push_entries i (settable i (push_value i (push l (string k)) v)) es

-- What readValue comes to: a value and the stack it leaves, or Lua's panic outside a protected
-- call, or no end within the fuel.
pub data Reading : Type 0 where
  read : Variant → List LuaValue → Reading
  panicked unfinished : Reading

abbrev pub bind : Reading → (Variant → List LuaValue → Reading) → Reading
bind (read x s) f = f x s
bind panicked f = panicked
bind unfinished f = unfinished

-- lua_next: the pair after a key, the first after nil; a key that is not there is an error.
pub data Next : Type 0 where
  gives : LuaValue → LuaValue → Next
  ends invalid_key : Next

abbrev pub first : Table → Next
first [] = ends
first ((k, v) ∷ t) = gives k v

unfoldable pub after : Table → LuaValue → Next
after [] k = invalid_key
after ((j, v) ∷ t) k = if same j k then first t else after t k

unfoldable pub next : Table → LuaValue → Next
unfolding after
next t nil = first t
next t k = after t k

-- lua_rawgeti
unfoldable pub raw_get : Table → ℕ → LuaValue
raw_get [] n = nil
raw_get ((k, v) ∷ t) n = if same k (integer (pos n)) then v else raw_get t n

-- map[key] = value
unfoldable pub put : Entries → String → Variant → Entries
put end k v = entry k v end
put (entry j u es) k v = if j == k then entry j v es else entry j u (put es k v)

unfoldable pub append_item : Variants → Variant → Variants
append_item empty v = item v empty
append_item (item u us) v = item u (append_item us v)

abbrev pub mark : (ℕ → Bool) → ℕ → ℕ → Bool
mark seen p q = if p == q then true else seen q

-- readValue of the value on top; `seen` are the tables around it.
abbrev pub Reader : Type 0
Reader = (ℕ → Bool) → List LuaValue → Reading

-- One round of the loop over lua_next: the key is taken off, and the next pair put on.
unfoldable pub visit :
    Reader
    → (Entries → List LuaValue → Reading)
    → (ℕ → Bool)
    → Entries
    → Bool
    → List LuaValue
    → Next
    → Reading
visit rec again seen m none_yet s invalid_key = panicked
visit rec again seen m none_yet s ends = read (if none_yet then list empty else map m) s
visit rec again seen m none_yet s (gives (string k) v) =
    bind (rec seen (v ∷ string k ∷ s)) (λ x s'. again (put m k x) (drop 1 s'))
visit rec again seen m none_yet s (gives k v) = read invalid (v ∷ k ∷ s)

-- The loop, the key of the last pair being on top; `fuel` counts its rounds.
unfoldable pub read_map : Reader → ℕ → Table → (ℕ → Bool) → Entries → Bool → List LuaValue → Reading
unfolding visit
read_map rec zero t seen m none_yet s = unfinished
read_map rec (suc fuel) t seen m none_yet s =
    visit rec (λ m' s'. read_map rec fuel t seen m' false s') seen m none_yet (drop 1 s)
      (next t (top s))

-- The loop over the elements; `rounds` are left, and `n` is the next index.
unfoldable pub read_array : Reader → ℕ → ℕ → Table → (ℕ → Bool) → Variants → List LuaValue → Reading
read_array rec zero n t seen arr s = read (list arr) s
read_array rec (suc rounds) n t seen arr s =
    bind (rec seen (raw_get t n ∷ s))
      (λ x s'. read_array rec rounds (suc n) t seen (append_item arr x) (drop 1 s'))

unfoldable pub read_table : Interpreter → Reader → Table → (ℕ → Bool) → List LuaValue → Reading
unfolding read_map read_array
read_table i rec t seen s =
    if i.len t == 0
    then read_map rec (suc (length t)) t seen end true (nil ∷ s)
    else read_array rec (i.len t) 1 t seen empty s

unfoldable pub read_top :
    Interpreter → Reader → List Table → (ℕ → Bool) → LuaValue → List LuaValue → Reading
unfolding read_table
read_top i rec h seen nil s = read null s
read_top i rec h seen (boolean b) s = read (bool b) s
read_top i rec h seen (integer n) s = read (double (i.to_float n)) s
read_top i rec h seen (float d) s = read (double d) s
read_top i rec h seen (string t) s = read (text t) s
read_top i rec h seen (table p) s =
    if seen p then read invalid s else read_table i rec (get_table h p) (mark seen p) s
read_top i rec h seen (other n) s = read invalid s

-- Lua::readValue with fuel for the depth.
unfoldable pub read_value : ℕ → Interpreter → List Table → Reader
unfolding read_top
read_value zero i h seen s = unfinished
read_value (suc fuel) i h seen s = read_top i (read_value fuel i h) h seen (top s) s

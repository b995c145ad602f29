-- ===== src/Lua/Agreement.antt =====
-- Lua::readValue (src/swig/naturalvar.i) against a reading that knows no stack and no lua_next: on
-- tables that may hold each other in any way, cyclic ones too.
use free_kill.Base.{
  ap, ◌∙◌, ◌≤◌, ◌&&◌, ℕ, zero, suc, String, Bool, true, false, List, [], ◌∷◌, ◌++◌, ◌≡◌, refl, ap,
  length, ◌<◌, ◌+◌, ◌==◌, nat_eq, string_eq, if◌then◌else◌, arith, Bool-cases, inl, inr, beq_refl,
}
use free_kill.Lua.{
  LuaValue, nil, boolean, integer, float, string, table, other, Table, Variant, Variants, Entries,
  Interpreter, Reading, read, first, after, next, raw_get, put, append_item, mark, read_map,
  read_array, read_table, read_top, read_value, same, get_table, invalid, null, bool, double, text,
  list, map, empty, end,
}
use mathlib.Core.Path.{subst}
use mathlib.Core.List.{append_assoc}
use free_kill.Base.Int.{pos}

-- The variant that a value stands for; `seen` are the tables around it.
abbrev pub Denotation : Type 0
Denotation = (ℕ → Bool) → LuaValue → Variant

unfoldable pub entries : Denotation → (ℕ → Bool) → Entries → Table → Entries
entries ref seen m [] = m
entries ref seen m ((string k, v) ∷ t) = entries ref seen (put m k (ref seen v)) t
entries ref seen m (_ ∷ t) = m

unfoldable pub elements : Denotation → (ℕ → Bool) → Table → ℕ → ℕ → Variants → Variants
elements ref seen t zero n arr = arr
elements ref seen t (suc rounds) n arr =
    elements ref seen t rounds (suc n) (append_item arr (ref seen (raw_get t n)))

abbrev no_pairs : Table → Bool
no_pairs [] = true
no_pairs (_ ∷ t) = false

unfoldable pub denote_table : Interpreter → Denotation → Table → (ℕ → Bool) → Variant
denote_table i ref t seen =
    if i.len t == 0
    then (if no_pairs t then list empty else map (entries ref seen end t))
    else list (elements ref seen t (i.len t) 1 empty)

unfoldable pub denote_value : Interpreter → Denotation → List Table → Denotation
denote_value i ref h seen nil = null
denote_value i ref h seen (boolean b) = bool b
denote_value i ref h seen (integer n) = double (i.to_float n)
denote_value i ref h seen (float d) = double d
denote_value i ref h seen (string t) = text t
denote_value i ref h seen (table p) =
    if seen p then invalid else denote_table i ref (get_table h p) (mark seen p)
denote_value i ref h seen (other n) = invalid

unfoldable pub denote : ℕ → Interpreter → List Table → Denotation
unfolding denote_value denote_table entries elements
denote zero i h seen v = invalid
denote (suc depth) i h seen v = denote_value i (denote depth i h) h seen v

-- Keys of one table are different.
abbrev Absent : LuaValue → Table → Type 0
Absent k [] = Unit {0}
Absent k ((j, v) ∷ t) = (same k j ≡ false) × Absent k t

abbrev pub Distinct : Table → Type 0
Distinct [] = Unit {0}
Distinct ((k, v) ∷ t) = Absent k t × Distinct t

abbrev pub StringKeys : Table → Type 0
StringKeys [] = Unit {0}
StringKeys ((string k, v) ∷ t) = StringKeys t
StringKeys (_ ∷ t) = ⊥

abbrev pub Within : (ℕ → Bool) → LuaValue → Type 0
Within inside (table p) = inside p ≡ true
Within inside _ = Unit {0}

abbrev pub ValuesWithin : (ℕ → Bool) → Table → Type 0
ValuesWithin inside [] = Unit {0}
ValuesWithin inside ((k, v) ∷ t) = Within inside v × ValuesWithin inside t

-- A set of tables that holds the values of its members; those without an array part have string
-- keys only.
pub record IsPlain (i : Interpreter) (h : List Table) (inside : ℕ → Bool) : Type 0 where
  pub exists : (p : ℕ) → inside p ≡ true → p < length h
  pub closed : (p : ℕ) → inside p ≡ true → ValuesWithin inside (get_table h p)
  pub distinct : (p : ℕ) → inside p ≡ true → Distinct (get_table h p)
  pub keyed : (p : ℕ) → inside p ≡ true → i.len (get_table h p) ≡ 0 → StringKeys (get_table h p)

same_string : (k : String) → same (string k) (string k) ≡ true
same_string k = beq_refl k

-- lua_next of a key goes on with the pairs behind it.
after_lem :
    (pre : Table) (k : String) (v : LuaValue) (post : Table)
    → Distinct (pre ++ (string k, v) ∷ post)
    → after (pre ++ (string k, v) ∷ post) (string k) ≡ first post
unfolding after
after_lem [] k v post d = rw (same_string k)
after_lem ((j, u) ∷ pre) k v post d = rw (absent j pre d.0) (after_lem pre k v post d.1)
  where
    absent :
        (j : LuaValue) (pre : Table)
        → Absent j (pre ++ (string k, v) ∷ post)
        → same j (string k) ≡ false
    absent j [] a = a.0
    absent j (x ∷ pre) a = absent j pre a.1

next_lem :
    (pre : Table) (k : String) (v : LuaValue) (post : Table)
    → Distinct (pre ++ (string k, v) ∷ post)
    → next (pre ++ (string k, v) ∷ post) (string k) ≡ first post
unfolding next
next_lem pre k v post d = after_lem pre k v post d

and_true : (b : Bool) (x y : Variant) → (if b && true then x else y) ≡ (if b then x else y)
and_true true x y = refl
and_true false x y = refl

and_false : (b : Bool) (x y : Variant) → (if b && false then x else y) ≡ y
and_false true x y = refl
and_false false x y = refl

raw_get-Within :
    (inside : ℕ → Bool) (t : Table) (n : ℕ) → ValuesWithin inside t → Within inside (raw_get t n)
unfolding raw_get
raw_get-Within inside [] n w = tt
raw_get-Within inside ((k, v) ∷ t) n w = elim (Bool-cases (same k (integer (pos n)))) [
  | inl e ↦ rw e w.0
  | inr e ↦ rw e (raw_get-Within inside t n w.1)
]

module _ (inside : ℕ → Bool) (rec : (ℕ → Bool) → List LuaValue → Reading) (ref : Denotation)
    (seen : ℕ → Bool)
    (good : (v : LuaValue) (s : List LuaValue)
      → Within inside v
      → rec seen (v ∷ s) ≡ read (ref seen v) (v ∷ s)) where
  read_array-elements :
      (t : Table)
      → ValuesWithin inside t
      → (rounds n : ℕ) (arr : Variants) (s : List LuaValue)
      → read_array rec rounds n t seen arr s ≡ read (list (elements ref seen t rounds n arr)) s
  unfolding read_array elements
  read_array-elements t w zero n arr s = refl
  read_array-elements t w (suc rounds) n arr s =
      rw (good (raw_get t n) s (raw_get-Within inside t n w))
        (read_array-elements t w rounds (suc n) _ s)

  read_map-entries :
      (pre post : Table) (fuel : ℕ) (k : LuaValue) (m : Entries) (none_yet : Bool)
      (s : List LuaValue)
      → Distinct (pre ++ post)
      → StringKeys post
      → ValuesWithin inside post
      → length post < fuel
      → next (pre ++ post) k ≡ first post
      → read_map rec fuel (pre ++ post) seen m none_yet (k ∷ s)
        ≡ read (if no_pairs post && none_yet then list empty else map (entries ref seen m post)) s
  unfolding read_map entries
  read_map-entries pre post zero k m none_yet s d sk w lt e = absurd (omega arith)
  read_map-entries pre [] (suc fuel) k m none_yet s d sk w lt e = rw e refl
  read_map-entries pre ((string j, v) ∷ post) (suc fuel) k m none_yet s d sk w lt e =
      let moved = append_assoc pre ((string j, v) ∷ []) post in
      rw (e, good v (string j ∷ s) w.0)
        (subst
          (λ t.
            read_map rec fuel t seen (put m j (ref seen v)) false (string j ∷ s)
            ≡ read (map (entries ref seen (put m j (ref seen v)) post)) s)
          moved
          (read_map-entries (pre ++ (string j, v) ∷ []) post fuel (string j) (put m j (ref seen v))
              false s (rw moved d) sk w.1 (omega arith) (rw moved (next_lem pre j v post d))
            ∙ ap (λ r. read r s) (and_false (no_pairs post) _ _)))
  read_map-entries pre ((nil, v) ∷ post) (suc fuel) k m none_yet s d sk w lt e = elim sk [ ]
  read_map-entries pre ((boolean _, v) ∷ post) (suc fuel) k m none_yet s d sk w lt e = elim sk [ ]
  read_map-entries pre ((integer _, v) ∷ post) (suc fuel) k m none_yet s d sk w lt e = elim sk [ ]
  read_map-entries pre ((float _, v) ∷ post) (suc fuel) k m none_yet s d sk w lt e = elim sk [ ]
  read_map-entries pre ((table _, v) ∷ post) (suc fuel) k m none_yet s d sk w lt e = elim sk [ ]
  read_map-entries pre ((other _, v) ∷ post) (suc fuel) k m none_yet s d sk w lt e = elim sk [ ]

-- How many tables below a number are not among those around the value.
unfoldable pub unseen : (ℕ → Bool) → ℕ → ℕ
unseen seen zero = 0
unseen seen (suc n) = (if seen n then 0 else 1) + unseen seen n

unseen-mark_le : (seen : ℕ → Bool) (p n : ℕ) → n ≤ p → unseen (mark seen p) n ≡ unseen seen n
unfolding unseen
unseen-mark_le seen p zero h = refl
unseen-mark_le seen p (suc n) h = ground (arith, unseen-mark_le seen p n)

unseen-mark :
    (seen : ℕ → Bool) (p n : ℕ)
    → p < n
    → seen p ≡ false
    → suc (unseen (mark seen p) n) ≡ unseen seen n
unfolding unseen
unseen-mark seen p zero h q = elim h [ ]
unseen-mark seen p (suc n) h q = ground (arith, unseen-mark seen p n, unseen-mark_le seen p n)

module _ (i : Interpreter) (h : List Table) (inside : ℕ → Bool) (plain : IsPlain i h inside) where
  open plain use {exists, closed, distinct, keyed}

  read_table-denote_table :
      (rec : (ℕ → Bool) → List LuaValue → Reading) (ref : Denotation) (seen : ℕ → Bool)
      → ((v : LuaValue) (s : List LuaValue)
          → Within inside v
          → rec seen (v ∷ s) ≡ read (ref seen v) (v ∷ s))
      → (p : ℕ) → inside p ≡ true
      → (s : List LuaValue)
      → read_table i rec (get_table h p) seen s ≡ read (denote_table i ref (get_table h p) seen) s
  unfolding read_table denote_table next
  read_table-denote_table rec ref seen good p q s = elim (Bool-cases (i.len (get_table h p) == 0)) [
    | inl e ↦ rw e (
        read_map-entries inside rec ref seen good [] (get_table h p) (suc (length (get_table h p)))
          nil end true s (distinct p q) (keyed p q (ground arith)) (closed p q) (omega arith) refl
        ∙ ap (λ r. read r s) (and_true (no_pairs (get_table h p)) _ _))
    | inr e ↦ rw e (
        read_array-elements inside rec ref seen good (get_table h p) (closed p q)
          (i.len (get_table h p)) 1 empty s)
  ]

  -- On a value of plain tables (a set closed under their values, in which the keys of one table differ
  -- and tables without an array part have string keys only), which may hold each other in cycles,
  -- readValue comes to an end with more fuel than there are tables not being read, at the value that
  -- the reading without stack gives, with the stack as it was.
  pub read_value-denote :
      (fuel : ℕ) (seen : ℕ → Bool) (v : LuaValue) (s : List LuaValue)
      → Within inside v
      → unseen seen (length h) < fuel
      → read_value fuel i h seen (v ∷ s) ≡ read (denote fuel i h seen v) (v ∷ s)
  unfolding read_value denote read_top denote_value
  read_value-denote zero seen v s w lt = absurd (omega arith)
  read_value-denote (suc fuel) seen nil s w lt = refl
  read_value-denote (suc fuel) seen (boolean b) s w lt = refl
  read_value-denote (suc fuel) seen (integer n) s w lt = refl
  read_value-denote (suc fuel) seen (float d) s w lt = refl
  read_value-denote (suc fuel) seen (string t) s w lt = refl
  read_value-denote (suc fuel) seen (other n) s w lt = refl
  read_value-denote (suc fuel) seen (table p) s w lt = elim (Bool-cases (seen p)) [
    | inl e ↦ rw e refl
    | inr e ↦ rw e (
        read_table-denote_table (read_value fuel i h) (denote fuel i h) (mark seen p)
          (λ v s' w'.
            read_value-denote fuel (mark seen p) v s' w'
              (omega (arith, unseen-mark seen p (length h) (exists p w) e)))
          p w (table p ∷ s))
  ]

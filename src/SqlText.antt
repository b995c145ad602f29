-- ===== src/SqlText.antt =====
-- Sqlite3::checkString (src/core/c-wrapper.cpp): which texts may be put into a statement.
use Prim.Native.Char.{code}
use free_kill.Base.{
  nat_beq_iff, Bool-cases, ltb, if◌then◌else◌, ◌++◌, ◌==◌, nat_eq, string_eq, int_eq, contains,
  contains-cons, ℕ, String, ◌≡◌, refl, ap, ◌↔◌, inl, inr, Bool, true, false, not, ◌&&◌, ◌||◌, List,
  [], ◌∷◌, arith,
}

-- The code points of a text.
abbrev pub codes : String → List ℕ
codes String.[] = []
codes (String.◌∷◌ c s) = code c ∷ codes s

abbrev latin1_of : ℕ → List ℕ
latin1_of n = if ltb n 256 then n ∷ [] else if ltb n 65536 then 63 ∷ [] else 63 ∷ 63 ∷ []

-- QString::toLatin1: a question mark for each UTF-16 unit that is no Latin-1 character
unfoldable pub latin1 : String → List ℕ
latin1 String.[] = []
latin1 (String.◌∷◌ c s) = latin1_of (code c) ++ latin1 s

-- The class ['";#* /\?<>|:] of the expression.
abbrev forbidden : List ℕ
forbidden = 39 ∷ 34 ∷ 59 ∷ 35 ∷ 42 ∷ 32 ∷ 47 ∷ 92 ∷ 63 ∷ 60 ∷ 62 ∷ 124 ∷ 58 ∷ []

unfoldable pub has_forbidden : List ℕ → Bool
has_forbidden [] = false
has_forbidden (c ∷ cs) = contains forbidden c || has_forbidden cs

abbrev starts_with_code : List ℕ → ℕ → Bool
starts_with_code [] b = false
starts_with_code (c ∷ cs) b = c == b

-- A match of two given characters in a row.
unfoldable pub has_pair : ℕ → ℕ → List ℕ → Bool
has_pair a b [] = false
has_pair a b (c ∷ cs) = (c == a && starts_with_code cs b) || has_pair a b cs

-- The alternatives in turn: the class, `--`, `/*`, `*/`. The last one, `--+`, matches nothing that
-- `--` does not.
unfoldable pub has_match : List ℕ → Bool
unfolding has_forbidden has_pair contains
has_match cs = has_forbidden cs || (has_pair 45 45 cs || (has_pair 47 42 cs || has_pair 42 47 cs))

unfoldable pub check_string : String → Bool
unfolding has_match
check_string s = not (has_match (codes s))

or_left : (a b : Bool) → (a || b) ≡ false → a ≡ false
or_left a b h = ground arith

or_right : (a b : Bool) → (a || b) ≡ false → b ≡ false
or_right a b h = ground arith

pair-forbidden :
    (a b : ℕ) (cs : List ℕ)
    → contains forbidden a ≡ true
    → has_pair a b cs ≡ true
    → has_forbidden cs ≡ true
unfolding has_pair has_forbidden
pair-forbidden a b [] h p = cc
pair-forbidden a b (c ∷ cs) h p = elim (Bool-cases (c == a)) [
  | inl e ↦ rw ((nat_beq_iff c a).0 e) (rw h)
  | inr n ↦ ground (arith, pair-forbidden a b cs h)
]

-- Exactly the texts pass that hold no character of the class and no two dashes in a row.
pub check_string_iff :
    (s : String)
    → (check_string s ≡ true)
      ↔ ((has_forbidden (codes s) ≡ false) × (has_pair 45 45 (codes s) ≡ false))
unfolding check_string contains
check_string_iff s = (
  λ h. (ground arith, ground arith),
  λ h. ground (arith, pair-forbidden 47 42 (codes s) refl, pair-forbidden 42 47 (codes s) refl),
)

without_code :
    (c : ℕ) (cs : List ℕ)
    → contains forbidden c ≡ true
    → has_forbidden cs ≡ false
    → contains cs c ≡ false
unfolding has_forbidden
without_code c [] h f = unfold contains in refl
without_code c (x ∷ cs) h f = elim (Bool-cases (x == c)) [
  | inl e ↦ cc (
    h,
    ap (contains forbidden) ((nat_beq_iff x c).0 e),
    or_left (contains forbidden x) (has_forbidden cs) f,
  )
  | inr n ↦
      rw (contains-cons x cs c, n)
        (without_code c cs h (or_right (contains forbidden x) (has_forbidden cs) f))
]

-- A text that passes does not end a quoted literal: no quote, no semicolon, no backslash in it.
pub check_string_quotes :
    (s : String)
    → check_string s ≡ true
    → (contains (codes s) 39 ≡ false)
      × (contains (codes s) 34 ≡ false)
      × (contains (codes s) 59 ≡ false)
      × (contains (codes s) 92 ≡ false)
unfolding contains
check_string_quotes s h =
    let clean = ((check_string_iff s).0 h).0 in
    (
      without_code 39 (codes s) refl clean,
      without_code 34 (codes s) refl clean,
      without_code 59 (codes s) refl clean,
      without_code 92 (codes s) refl clean,
    )

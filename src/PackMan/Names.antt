-- ===== src/PackMan/Names.antt =====
-- Lists without repetition, such as the disabled packages of src/core/packman.cpp.
use free_kill.Base.{
  ◌==◌, int_eq, nat_eq, string_eq, contains, remove_one, contains-append, String, ◌≡◌, refl, Bool,
  true, false, not, ◌&&◌, List, [], ◌∷◌, ◌++◌, arith,
}

-- No name is listed twice.
unfoldable pub distinct : List String → Bool
distinct [] = true
distinct (n ∷ ns) = not (contains ns n) && distinct ns

pub contains-remove_one :
    (ds : List String) (a n : String)
    → distinct ds ≡ true
    → contains (remove_one ds a) n ≡ (contains ds n && not (a == n))
unfolding contains remove_one distinct
contains-remove_one [] a n h = refl
contains-remove_one (d ∷ ds) a n h = ground (
  arith,
  contains-remove_one ds a n,
  string_eq.same_iff d a,
  string_eq.same_iff d n,
  string_eq.same_iff a n,
)

pub distinct-append :
    (ds : List String) (a : String)
    → distinct ds ≡ true
    → contains ds a ≡ false
    → distinct (ds ++ a ∷ []) ≡ true
unfolding contains distinct
distinct-append [] a h k = refl
distinct-append (d ∷ ds) a h k = ground (
  arith,
  distinct-append ds a,
  contains-append ds (a ∷ []) d,
  string_eq.same_iff d a,
  string_eq.same_iff a d,
)

pub distinct-remove_one :
    (ds : List String) (a : String) → distinct ds ≡ true → distinct (remove_one ds a) ≡ true
unfolding remove_one distinct
distinct-remove_one [] a h = refl
distinct-remove_one (d ∷ ds) a h =
    ground (arith, distinct-remove_one ds a, contains-remove_one ds a d)

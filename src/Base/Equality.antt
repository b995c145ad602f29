-- ===== src/Base/Equality.antt =====
-- Equality tests as an interface, with the instances that the program compares by.
use Prim.Native.Nat.{ℕ, ◌+◌, ◌-◌, ◌≤◌}
use Prim.Native.String.{String}
use mathlib.Core.Path.{◌≡◌, refl}
use mathlib.Core.Logic.{◌↔◌}
use mathlib.Core.Bool.{Bool, true, false, ◌||◌}
use mathlib.Core.List.{List, [], ◌∷◌, ◌++◌}
use native.Mathlib.Omega.{arith}
use text.Mathlib.Text.{◌==◌ as str_eq}
use text.Mathlib.TextEquality.{eq_iff}
use free_kill.Base.Tests.{nat_beq, if◌then◌else◌, nat_beq_iff}
use free_kill.Base.Lists.{length}
use free_kill.Base.Int.{int_beq, int_beq_iff, ℤ}

pub record Eq {ℓ} (A : Type ℓ) : Type ℓ where
  pub same : A → A → Bool
  pub same_iff : (a b : A) → (same a b ≡ true) ↔ (a ≡ b)

infix 50 ◌==◌
abbrev pub ◌==◌ {ℓ} : {A : Type ℓ} ⦃e : Eq A⦄ → A → A → Bool
◌==◌ ⦃e⦄ = e.same

instance abbrev pub int_eq : Eq ℤ
int_eq = record { same = int_beq; same_iff = int_beq_iff }

instance abbrev pub nat_eq : Eq ℕ
nat_eq = record { same = nat_beq; same_iff = nat_beq_iff }

instance abbrev pub string_eq : Eq String
string_eq = record { same = str_eq; same_iff = eq_iff }

module _ {ℓ} {A : Type ℓ} ⦃e : Eq A⦄ where
  -- QList::contains
  unfoldable pub contains : List A → A → Bool
  contains [] a = false
  contains (x ∷ xs) a = x == a || contains xs a

  pub contains-cons :
      (x : A) (xs : List A) (a : A) → contains (x ∷ xs) a ≡ (x == a || contains xs a)
  unfolding contains
  contains-cons x xs a = refl

  -- QList::removeOne: the first occurrence only.
  unfoldable pub remove_one : List A → A → List A
  remove_one [] a = []
  remove_one (x ∷ xs) a = if x == a then xs else x ∷ remove_one xs a

  -- How often `a` stands in a list.
  abbrev pub count : A → List A → ℕ
  count a [] = 0
  count a (x ∷ xs) = (if x == a then 1 else 0) + count a xs

  pub beq_refl : (a : A) → (a == a) ≡ true
  beq_refl a = (e.same_iff a a).1 refl

  pub length-remove_one-le : (xs : List A) (a : A) → length (remove_one xs a) ≤ length xs
  unfolding remove_one
  length-remove_one-le [] a = omega arith
  length-remove_one-le (x ∷ xs) a = ground (arith, length-remove_one-le xs a)

  pub length-remove_one :
      (xs : List A) (a : A) → contains xs a ≡ true → length (remove_one xs a) + 1 ≡ length xs
  unfolding remove_one contains
  length-remove_one [] a h = ground arith
  length-remove_one (x ∷ xs) a h = ground (arith, length-remove_one xs a)

  pub remove_one_absent : (xs : List A) (a : A) → contains xs a ≡ false → remove_one xs a ≡ xs
  unfolding remove_one contains
  remove_one_absent [] a h = refl
  remove_one_absent (x ∷ xs) a h = ground (arith, remove_one_absent xs a)

  -- Whether `a` is still there is decided by how often it was there.
  pub contains-append :
      (xs ys : List A) (a : A) → contains (xs ++ ys) a ≡ (contains xs a || contains ys a)
  unfolding contains
  contains-append [] ys a = refl
  contains-append (x ∷ xs) ys a = ground (arith, contains-append xs ys a)

  pub contains-last : (xs : List A) (a : A) → contains (xs ++ a ∷ []) a ≡ true
  unfolding contains
  contains-last xs a = ground (arith, contains-append xs (a ∷ []) a, beq_refl a)

  pub contains-count : (xs : List A) (a : A) → contains xs a ≡ false → count a xs ≡ 0
  unfolding contains
  contains-count [] a h = refl
  contains-count (x ∷ xs) a h = ground (arith, contains-count xs a)

  pub count-contains : (xs : List A) (a : A) → count a xs ≡ 0 → contains xs a ≡ false
  unfolding contains
  count-contains [] a h = refl
  count-contains (x ∷ xs) a h = ground (arith, count-contains xs a)

  pub count-append : (a : A) (xs ys : List A) → count a (xs ++ ys) ≡ count a xs + count a ys
  count-append a [] ys = omega arith
  count-append a (x ∷ xs) ys = omega (arith, count-append a xs ys)

  pub count-remove_one :
      (xs : List A) (a b : A) → count b (remove_one xs a) ≡ count b xs - (if a == b then 1 else 0)
  unfolding remove_one
  count-remove_one [] a b = ground arith
  count-remove_one (x ∷ xs) a b =
      ground (arith, count-remove_one xs a b, e.same_iff x a, e.same_iff x b, e.same_iff a b)

  -- A list that contains an element, or one equal to it, counts it.
  pub contains-count-pos : (xs : List A) (a b : A) → contains xs a ≡ true → a ≡ b → 1 ≤ count b xs
  unfolding contains
  contains-count-pos [] a b h q = ground arith
  contains-count-pos (x ∷ xs) a b h q =
      ground (arith, contains-count-pos xs a b, e.same_iff x a, e.same_iff x b)

  pub contains-remove_one_ne :
      (xs : List A) (a b : A)
      → (b == a) ≡ false
      → contains xs b ≡ true
      → contains (remove_one xs a) b ≡ true
  unfolding contains remove_one
  contains-remove_one_ne [] a b n h = h
  contains-remove_one_ne (x ∷ xs) a b n h =
      ground (arith, contains-remove_one_ne xs a b, e.same_iff x a, e.same_iff x b, e.same_iff b a)

-- ===== src/PackMan/Tidy.antt =====
-- The pointers that a libgit2 function of src/core/packman.cpp holds between two calls.
use free_kill.PackMan.Repository.{
  LibGit, Run, given, make, put_repo, put_part, act, clean, check, make_part, with_repo, with_part,
}
use free_kill.Base.{
  nat_eq, contains, remove_one, Bool-cases, beq_refl, ℕ, suc, false, none, some, [], ◌∷◌, inl, inr,
  ◌≡◌, refl, sym, ap, arith,
}
use free_kill.Base.Int.{is_negative, ℤ}
use mathlib.Core.Path.{subst}

module _ (g : LibGit) where
  -- Nothing is held and no call was given a wrong pointer.
  abbrev pub idle_at : g.Disk → ℕ → Run g
  idle_at d n = record { disk = d; next = n; live = []; misused = false; repo = none; part = none }

  -- The repository alone is held, or the repository and the other object.
  abbrev pub held_at : g.Disk → ℕ → Run g
  held_at d n = record {
    disk = d;
    next = suc n;
    live = n ∷ [];
    misused = false;
    repo = some n;
    part = none;
  }

  abbrev pub both_at : g.Disk → ℕ → Run g
  both_at d n = record {
    disk = d;
    next = suc (suc n);
    live = suc n ∷ n ∷ [];
    misused = false;
    repo = some n;
    part = some (suc n);
  }

  pub data Tidy : Run g → Type 0 where
    idle : (d : g.Disk) (n : ℕ) → Tidy (idle_at d n)
    held : (d : g.Disk) (n : ℕ) → Tidy (held_at d n)
    both : (d : g.Disk) (n : ℕ) → Tidy (both_at d n)

  abbrev pub Idle : Run g → Type 0
  Idle s = s ≡ idle_at s.disk s.next

  pub given_repo-held : (d : g.Disk) (n : ℕ) → given g (held_at d n) (some n) ≡ held_at d n
  unfolding contains
  given_repo-held d n = rw (beq_refl n) refl

  pub given_repo-both : (d : g.Disk) (n : ℕ) → given g (both_at d n) (some n) ≡ both_at d n
  unfolding contains
  given_repo-both d n = ground arith

  pub given_part-both : (d : g.Disk) (n : ℕ) → given g (both_at d n) (some (suc n)) ≡ both_at d n
  unfolding contains
  given_part-both d n = rw (beq_refl (suc n)) refl

  pub clean-Idle : (s : Run g) → Tidy s → Idle (clean g s)
  unfolding clean contains remove_one
  clean-Idle s (idle d n) = refl
  clean-Idle s (held d n) = rw (beq_refl n) refl
  clean-Idle s (both d n) = rw (beq_refl (suc n)) (rw (beq_refl n) refl)

  pub check-Tidy :
      (m : ℤ × Run g) (next : Run g → ℤ × Run g)
      → Tidy m.1
      → (is_negative m.0 ≡ false → Tidy (next m.1).1)
      → Tidy (check g m next).1
  unfolding check
  check-Tidy m next t k = elim (Bool-cases (is_negative m.0)) [
    | inl e ↦ rw e t
    | inr e ↦ rw e (k e)
  ]

  -- A check whose error is not negative has gone on.
  pub check-done :
      (m : ℤ × Run g) (next : Run g → ℤ × Run g)
      → is_negative (check g m next).0 ≡ false
      → (is_negative m.0 ≡ false) × (check g m next ≡ next m.1)
  unfolding check
  check-done m next = elim (Bool-cases (is_negative m.0)) [
    | inl e ↦ rw e (λ h. absurd (ground arith))
    | inr e ↦ rw e (λ h. (refl, refl))
  ]

  -- Opening a repository.
  module _ (call : g.Disk → ℤ × g.Disk) where
    pub open-Tidy : (d : g.Disk) (n : ℕ) → Tidy (make g (put_repo g) call (idle_at d n)).1
    unfolding make
    open-Tidy d n = elim (Bool-cases (is_negative (call d).0)) [
      | inl e ↦ rw e (idle (call d).1 n)
      | inr e ↦ rw e (held (call d).1 n)
    ]

    pub open-held :
        (d : g.Disk) (n : ℕ)
        → is_negative (make g (put_repo g) call (idle_at d n)).0 ≡ false
        → (make g (put_repo g) call (idle_at d n)).1 ≡ held_at (call d).1 n
    unfolding make
    open-held d n h = ground arith

    part_Tidy : (d : g.Disk) (n : ℕ) → Tidy (make g (put_part g) call (held_at d n)).1
    unfolding make
    part_Tidy d n = elim (Bool-cases (is_negative (call d).0)) [
      | inl e ↦ rw e (held (call d).1 n)
      | inr e ↦ rw e (both (call d).1 n)
    ]

    part_both :
        (d : g.Disk) (n : ℕ)
        → is_negative (make g (put_part g) call (held_at d n)).0 ≡ false
        → (make g (put_part g) call (held_at d n)).1 ≡ both_at (call d).1 n
    unfolding make
    part_both d n h = ground arith

    part-from :
        (d : g.Disk) (n : ℕ)
        → make_part g call (held_at d n) ≡ make g (put_part g) call (held_at d n)
    part-from d n = ap (make g (put_part g) call) (given_repo-held d n)

    pub part-Tidy : (d : g.Disk) (n : ℕ) → Tidy (make_part g call (held_at d n)).1
    unfolding make
    part-Tidy d n = subst (λ m. Tidy m.1) (sym (part-from d n)) (part_Tidy d n)

    pub part-both :
        (d : g.Disk) (n : ℕ)
        → is_negative (make_part g call (held_at d n)).0 ≡ false
        → (make_part g call (held_at d n)).1 ≡ both_at (call d).1 n
    part-both d n =
        subst (λ m. is_negative m.0 ≡ false → m.1 ≡ both_at (call d).1 n) (sym (part-from d n))
          (part_both d n)

    pub with_repo-held :
        (d : g.Disk) (n : ℕ) → with_repo g call (held_at d n) ≡ act g call (held_at d n)
    with_repo-held d n = ap (act g call) (given_repo-held d n)

    pub with_repo-both :
        (d : g.Disk) (n : ℕ) → with_repo g call (both_at d n) ≡ act g call (both_at d n)
    with_repo-both d n = ap (act g call) (given_repo-both d n)

    pub with_part-both :
        (d : g.Disk) (n : ℕ) → with_part g call (both_at d n) ≡ act g call (both_at d n)
    with_part-both d n = ap (act g call) (given_part-both d n)

  -- What follows a call, where the call has not failed.
  module _ (call : g.Disk → ℤ × g.Disk) (next : Run g → ℤ × Run g) (d : g.Disk) (n : ℕ) where
    pub after_open :
        Tidy (next (held_at (call d).1 n)).1
        → Tidy (check g (make g (put_repo g) call (idle_at d n)) next).1
    after_open t =
        check-Tidy _ next (open-Tidy call d n)
          (λ h. subst (λ s. Tidy (next s).1) (sym (open-held call d n h)) t)

    pub after_make :
        Tidy (next (both_at (call d).1 n)).1
        → Tidy (check g (make_part g call (held_at d n)) next).1
    after_make t =
        check-Tidy _ next (part-Tidy call d n)
          (λ h. subst (λ s. Tidy (next s).1) (sym (part-both call d n h)) t)

    pub after_act_held :
        Tidy (next (held_at (call d).1 n)).1 → Tidy (check g (act g call (held_at d n)) next).1
    after_act_held t = check-Tidy _ next (held (call d).1 n) (λ h. t)

    pub after_held :
        Tidy (next (held_at (call d).1 n)).1
        → Tidy (check g (with_repo g call (held_at d n)) next).1
    after_held t =
        subst (λ m. Tidy (check g m next).1) (sym (with_repo-held call d n)) (after_act_held t)

    pub after_act_both :
        Tidy (next (both_at (call d).1 n)).1 → Tidy (check g (act g call (both_at d n)) next).1
    after_act_both t = check-Tidy _ next (both (call d).1 n) (λ h. t)

    pub after_both :
        Tidy (next (both_at (call d).1 n)).1
        → Tidy (check g (with_repo g call (both_at d n)) next).1
    after_both t =
        subst (λ m. Tidy (check g m next).1) (sym (with_repo-both call d n)) (after_act_both t)

    pub after_part :
        Tidy (next (both_at (call d).1 n)).1
        → Tidy (check g (with_part g call (both_at d n)) next).1
    after_part t =
        subst (λ m. Tidy (check g m next).1) (sym (with_part-both call d n)) (after_act_both t)

-- ===== src/PackMan/Handles.antt =====
-- The pointers that the libgit2 functions of src/core/packman.cpp hold: whatever call fails, each
-- function frees what it made, and gives no call a pointer to anything else.
use free_kill.PackMan.Repository.{
  LibGit, Run, given, make, put_repo, check, make_part, with_part, path_of, clone, pull, checkout,
  checkout_branch, status, head,
}
use free_kill.Base.{
  if◌then◌else◌, nat_eq, Bool-cases, ℕ, String, false, inl, inr, ◌≡◌, sym, ap, ◌∙◌,
}
use free_kill.Base.Int.{is_negative, ℤ}
use mathlib.Core.Path.{subst}
use free_kill.PackMan.Tidy.{
  both_at, Tidy, given_repo-both, given_part-both, clean-Idle, check-Tidy, check-done, open-Tidy,
  open-held, part-Tidy, part-both, with_repo-held, with_repo-both, with_part-both, after_open,
  after_make, after_act_held, after_held, after_both, after_part, idle_at, Idle, held, both,
}

module _ (g : LibGit) where
  clone-Idle : (url : String) (d : g.Disk) (n : ℕ) → Idle g (clone g url (idle_at g d n)).1
  unfolding clone
  clone-Idle url d n = clean-Idle g _ (open-Tidy g _ d n)

  pull-Idle : (name : String) (d : g.Disk) (n : ℕ) → Idle g (pull g name (idle_at g d n)).1
  unfolding pull
  pull-Idle name d n =
      let path = path_of g name in
      let d₁ = (g.repository_open path d).1 in
      let d₂ = (g.remote_lookup path "origin" d₁).1 in
      let d₃ = (g.remote_fetch path d₂).1 in
      let d₄ = (g.set_head path "FETCH_HEAD" d₃).1 in
      let last =
        subst (λ m. Tidy g m.1) (sym (with_repo-both g (g.checkout_head path) d₄ n))
          (both (g.checkout_head path d₄).1 n) in
      clean-Idle g _ (
        after_open g (g.repository_open path) _ d n (
          after_make g (g.remote_lookup path "origin") _ d₁ n (
            after_part g (g.remote_fetch path) _ d₂ n
              (after_both g (g.set_head path "FETCH_HEAD") _ d₃ n last))))

  checkout-Idle :
      (name hash : String) (d : g.Disk) (n : ℕ) → Idle g (checkout g name hash (idle_at g d n)).1
  unfolding checkout
  checkout-Idle name hash d n =
      let path = path_of g name in
      let d₁ = (g.repository_open path d).1 in
      let d₂ = (g.oid_fromstr hash d₁).1 in
      let d₃ = (g.set_head_detached path hash d₂).1 in
      let last =
        subst (λ m. Tidy g m.1) (sym (with_repo-held g (g.checkout_head path) d₃ n))
          (held (g.checkout_head path d₃).1 n) in
      clean-Idle g _ (
        after_open g (g.repository_open path) _ d n (
          after_act_held g (g.oid_fromstr hash) _ d₁ n
            (after_held g (g.set_head_detached path hash) _ d₂ n last)))

  checkout_branch-Idle :
      (name branch : String) (d : g.Disk) (n : ℕ)
      → Idle g (checkout_branch g name branch (idle_at g d n)).1
  unfolding checkout_branch
  checkout_branch-Idle name branch d n =
      let path = path_of g name in
      let d₁ = (g.repository_open path d).1 in
      let d₂ = (g.revparse_single path branch d₁).1 in
      let call = g.checkout_tree path branch in
      let last = subst (λ m. Tidy g m.1) (sym (with_part-both g call d₂ n)) (both (call d₂).1 n) in
      clean-Idle g _ (
        after_open g (g.repository_open path) _ d n (
          after_make g (g.revparse_single path branch) _ d₁ n
            (subst (λ s. Tidy g (with_part g call s).1) (sym (given_repo-both g d₂ n)) last)))

  -- A repository and another object of it, as status and head begin.
  module _ (open_call part_call : g.Disk → ℤ × g.Disk) (d : g.Disk) (n : ℕ) where
    abbrev two : ℤ × Run g
    two = check g (make g (put_repo g) open_call (idle_at g d n)) λ s. make_part g part_call s

    two-Tidy : Tidy g two.1
    two-Tidy = check-Tidy g _ _ (open-Tidy g open_call d n) (λ h.
        subst (λ s. Tidy g (make_part g part_call s).1) (sym (open-held g open_call d n h))
          (part-Tidy g part_call (open_call d).1 n))

    two-both : is_negative two.0 ≡ false → two.1 ≡ both_at g (part_call (open_call d).1).1 n
    two-both h =
        let opened = make g (put_repo g) open_call (idle_at g d n) in
        let done = check-done g opened (λ s. make_part g part_call s) h in
        let from = done.1 ∙ ap (λ s. make_part g part_call s) (open-held g open_call d n done.0) in
        ap (λ m. m.1) from
        ∙ part-both g part_call (open_call d).1 n (ap (λ m. is_negative m.0) (sym from) ∙ h)

    -- Freed at the end, the other object being read if there is one.
    two_read : (found : ℤ) → Tidy g (check g two λ s. (found, given g s s.part)).1
    two_read found = check-Tidy g two _ two-Tidy (λ h.
        subst (λ s. Tidy g (given g s s.part)) (sym (two-both h))
          (subst (Tidy g) (sym (given_part-both g _ n)) (both _ n)))

    two_seen : Tidy g (if is_negative two.0 then two.1 else given g two.1 two.1.part)
    unfolding check
    two_seen = elim (Bool-cases (is_negative two.0)) [
      | inl e ↦ subst (λ b. Tidy g (if b then two.1 else given g two.1 two.1.part)) (sym e) two-Tidy
      | inr e ↦
          subst (λ b. Tidy g (if b then two.1 else given g two.1 two.1.part)) (sym e)
            (subst (λ s. Tidy g (given g s s.part)) (sym (two-both e))
              (subst (Tidy g) (sym (given_part-both g _ n)) (both _ n)))
    ]

  status-Idle : (name : String) (d : g.Disk) (n : ℕ) → Idle g (status g name (idle_at g d n)).1
  unfolding status check
  status-Idle name d n =
      let path = path_of g name in
      clean-Idle g _ (two_read (g.repository_open path) (g.status_list_new path) d n _)

  head-Idle : (name : String) (d : g.Disk) (n : ℕ) → Idle g (head g name (idle_at g d n)).1
  unfolding head check
  head-Idle name d n =
      let path = path_of g name in
      clean-Idle g _ (two_seen (g.repository_open path) (g.revparse_single path "HEAD") d n)

  -- Whatever calls of libgit2 fail, clone, pull, checkout, checkout_branch, status and head end with
  -- every object freed that they made, and no call was given a pointer that is null or freed.
  pub no_leaks :
      (name other : String) (d : g.Disk) (n : ℕ)
      → let s = idle_at g d n in
        Idle g (clone g name s).1
        × Idle g (pull g name s).1
        × Idle g (checkout g name other s).1
        × Idle g (checkout_branch g name other s).1
        × Idle g (status g name s).1
        × Idle g (head g name s).1
  no_leaks name other d n = (
    clone-Idle name d n,
    pull-Idle name d n,
    checkout-Idle name other d n,
    checkout_branch-Idle name other d n,
    status-Idle name d n,
    head-Idle name d n,
  )

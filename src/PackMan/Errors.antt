-- ===== src/PackMan/Errors.antt =====
-- What pull, checkout and checkout_branch of src/core/packman.cpp do to the disk, pointers forgotten.
use free_kill.PackMan.Repository.{
  LibGit, Run, given, make, put_repo, act, free, clean, cleaned, check, open_repo, make_part,
  with_repo, with_part, path_of, pull, checkout, checkout_branch,
}
use free_kill.Base.{
  if◌then◌else◌, Bool-cases, String, Option, none, some, List, [], ◌∷◌, inl, inr, ◌≡◌, refl, ap,
  ◌∙◌,
}
use free_kill.Base.Int.{is_negative, ℤ}

module _ (g : LibGit) where
  abbrev pub Call : Type 0
  Call = g.Disk → ℤ × g.Disk

  -- One call after the other, up to the first that fails: its error is the answer.
  pub until_error : Call → List Call → Call
  until_error c [] d = c d
  until_error c (c' ∷ cs) d =
      let rest = until_error c' cs (c d).1 in if is_negative (c d).0 then c d else rest

  -- The error and the disk.
  abbrev pub forget : ℤ × Run g → ℤ × g.Disk
  forget (e, s) = (e, s.disk)

  free-disk : (h : Option _) (s : Run g) → (free g h s).disk ≡ s.disk
  free-disk none s = refl
  free-disk (some h) s = refl

  forget-cleaned : (m : ℤ × Run g) → forget (cleaned g m) ≡ forget m
  unfolding clean
  forget-cleaned (e, s) = ap (λ d. (e, d)) (free-disk s.repo (free g s.part s) ∙ free-disk s.part s)

  forget-open : (call : Call) (s : Run g) → forget (make g (put_repo g) call s) ≡ call s.disk
  unfolding make
  forget-open call s = elim (Bool-cases (is_negative (call s.disk).0)) [
    | inl n ↦ rw n refl
    | inr n ↦ rw n refl
  ]

  forget-part : (call : Call) (s : Run g) → forget (make_part g call s) ≡ call s.disk
  unfolding make
  forget-part call s = elim (Bool-cases (is_negative (call s.disk).0)) [
    | inl n ↦ rw n refl
    | inr n ↦ rw n refl
  ]

  -- A part of a function that is so many calls.
  abbrev Does : (Run g → ℤ × Run g) → Call → List Call → Type 0
  Does f c cs = (s : Run g) → forget (f s) ≡ until_error c cs s.disk

  Does-check :
      (f : Run g → ℤ × Run g) (c : Call)
      → ((s : Run g) → forget (f s) ≡ c s.disk)
      → (next : Run g → ℤ × Run g) (c' : Call) (cs : List Call) → Does next c' cs
      → Does (λ s. check g (f s) next) c (c' ∷ cs)
  unfolding check until_error
  Does-check f c e next c' cs k s = elim (Bool-cases (is_negative (f s).0)) [
    | inl n ↦ rw (← e s, n) refl
    | inr n ↦ rw (← e s, n) (k (f s).1)
  ]

  forget-repo : (call : Call) (s : Run g) → forget (with_repo g call s) ≡ call s.disk
  forget-repo call s = refl

  forget-with_part : (call : Call) (s : Run g) → forget (with_part g call s) ≡ call s.disk
  forget-with_part call s = refl

  Does-last :
      (f : Run g → ℤ × Run g) (c : Call) → ((s : Run g) → forget (f s) ≡ c s.disk) → Does f c []
  unfolding until_error
  Does-last f c e = e

  abbrev pub pull_calls : String → List Call
  pull_calls path =
      g.remote_lookup path "origin"
      ∷ g.remote_fetch path
      ∷ g.set_head path "FETCH_HEAD"
      ∷ g.checkout_head path
      ∷ []

  pull-until :
      (name : String) (s : Run g)
      → let path = path_of g name in
        forget (pull g name s) ≡ until_error (g.repository_open path) (pull_calls path) s.disk
  unfolding pull
  pull-until name s =
      let path = path_of g name in
      let head = g.checkout_head path in
      let set = g.set_head path "FETCH_HEAD" in
      let d₅ = Does-last (with_repo g head) head (forget-repo head) in
      let d₄ = Does-check (with_repo g set) set (forget-repo set) _ _ _ d₅ in
      let fetch = g.remote_fetch path in
      let d₃ = Does-check (with_part g fetch) fetch (forget-with_part fetch) _ _ _ d₄ in
      let find = g.remote_lookup path "origin" in
      let d₂ = Does-check (make_part g find) find (forget-part find) _ _ _ d₃ in
      let open_ = g.repository_open path in
      forget-cleaned _ ∙ Does-check (open_repo g path) open_ (forget-open open_) _ _ _ d₂ s

  abbrev pub checkout_calls : String → String → List Call
  checkout_calls path hash =
      g.oid_fromstr hash ∷ g.set_head_detached path hash ∷ g.checkout_head path ∷ []

  checkout-until :
      (name hash : String) (s : Run g)
      → let path = path_of g name in
        forget (checkout g name hash s)
        ≡ until_error (g.repository_open path) (checkout_calls path hash) s.disk
  unfolding checkout
  checkout-until name hash s =
      let path = path_of g name in
      let head = g.checkout_head path in
      let set = g.set_head_detached path hash in
      let oid = g.oid_fromstr hash in
      let d₄ = Does-last (with_repo g head) head (forget-repo head) in
      let d₃ = Does-check (with_repo g set) set (forget-repo set) _ _ _ d₄ in
      let d₂ = Does-check (act g oid) oid (λ v. refl) _ _ _ d₃ in
      let open_ = g.repository_open path in
      forget-cleaned _ ∙ Does-check (open_repo g path) open_ (forget-open open_) _ _ _ d₂ s

  checkout_branch-until :
      (name branch : String) (s : Run g)
      → let path = path_of g name in
        forget (checkout_branch g name branch s)
        ≡ until_error
            (g.repository_open path)
            (g.revparse_single path branch ∷ g.checkout_tree path branch ∷ [])
            s.disk
  unfolding checkout_branch
  checkout_branch-until name branch s =
      let path = path_of g name in
      let tree = g.checkout_tree path branch in
      let parse = g.revparse_single path branch in
      let d₃ = Does-last (λ v. with_part g tree (given g v v.repo)) tree (λ v. refl) in
      let d₂ = Does-check (make_part g parse) parse (forget-part parse) _ _ _ d₃ in
      let open_ = g.repository_open path in
      forget-cleaned _ ∙ Does-check (open_repo g path) open_ (forget-open open_) _ _ _ d₂ s

  -- On the disk, and in the error that they answer, pull, checkout and checkout_branch are their calls
  -- of libgit2 one after the other up to the first that fails, whose error is the answer; the last
  -- call's is the answer if none fails.
  pub runs_until_error :
      (name other : String) (s : Run g)
      → let path = path_of g name in
        let open_ = g.repository_open path in
        (forget (pull g name s) ≡ until_error open_ (pull_calls path) s.disk)
        × (forget (checkout g name other s) ≡ until_error open_ (checkout_calls path other) s.disk)
        × (forget (checkout_branch g name other s)
            ≡ until_error open_
                (g.revparse_single path other ∷ g.checkout_tree path other ∷ [])
                s.disk)
  runs_until_error name other s =
      (pull-until name s, checkout-until name other s, checkout_branch-until name other s)

-- ===== src/PackMan/Repository.antt =====
-- clone, pull, checkout, checkout_branch, status and head of src/core/packman.cpp over libgit2,
-- whose calls are a parameter: an error number and the new disk. A pointer is null or the number of
-- an object that a call has made; a call that fails leaves it null.
use free_kill.Base.{
  if◌then◌else◌, ◌==◌, nat_eq, string_eq, contains, remove_one, ℕ, suc, String, Bool, false, not,
  ◌&&◌, ◌||◌, Option, none, some, List, [], ◌∷◌,
}
use free_kill.Base.Int.{is_negative, ℤ, pos}
use Prim.Native.String
use Prim.Native.Char.{code}

-- The first argument of most calls is the path of the repository that the handle stands for.
pub record LibGit : Type 1 where
  pub Disk : Type 0
  pub git_clone : String → String → Disk → ℤ × Disk
  pub repository_open : String → Disk → ℤ × Disk
  pub remote_lookup : String → String → Disk → ℤ × Disk
  pub remote_fetch : String → Disk → ℤ × Disk
  pub set_head : String → String → Disk → ℤ × Disk
  pub checkout_head : String → Disk → ℤ × Disk
  pub oid_fromstr : String → Disk → ℤ × Disk
  pub set_head_detached : String → String → Disk → ℤ × Disk
  pub revparse_single : String → String → Disk → ℤ × Disk
  pub checkout_tree : String → String → Disk → ℤ × Disk
  pub status_list_new : String → Disk → ℤ × Disk
  pub statuses : String → Disk → List ℕ  -- git_status_byindex(...)->status
  pub status_current : ℕ
  pub status_ignored : ℕ
  pub oid_of : String → String → Disk → String  -- git_object_id, git_oid_tostr
  pub url_file_name : String → String  -- QUrl(url).fileName()

-- `while (url.endsWith('/')) url.chop(1);`
pub chop_slashes : String → String
chop_slashes String.[] = String.[]
chop_slashes (String.◌∷◌ c s) =
    let t = chop_slashes s in if code c == 47 && t == "" then "" else String.◌∷◌ c t

-- `if (fileName.endsWith(".git")) fileName.chop(4);`
pub chop_git : String → String
chop_git String.[] = String.[]
chop_git (String.◌∷◌ c s) =
    let t = chop_git s in if String.◌∷◌ c s == ".git" then "" else String.◌∷◌ c t

module _ (g : LibGit) where
  -- The disk, the objects that libgit2 has made and not yet freed, whether a call was given a
  -- pointer to none of them, and the two pointers of a function: `repo`, and one of `remote`, `obj`
  -- and `status_list`.
  pub record Run : Type 0 where
    pub disk : g.Disk
    pub next : ℕ
    pub live : List ℕ
    pub misused : Bool
    pub repo : Option ℕ
    pub part : Option ℕ

  abbrev is_live : Run → Option ℕ → Bool
  is_live s none = false
  is_live s (some h) = contains s.live h

  -- A call that is given a pointer.
  abbrev pub given : Run → Option ℕ → Run
  given s h = record s { misused = s.misused || not (is_live s h) }

  -- A call that makes an object.
  unfoldable pub make : (Option ℕ → Run → Run) → (g.Disk → ℤ × g.Disk) → Run → ℤ × Run
  make put call s =
      let (e, d) = call s.disk in
      let done = record s { disk = d } in
      if is_negative e
      then (e, done)
      else (e, put (some s.next) (record done { next = suc s.next; live = s.next ∷ s.live }))

  abbrev pub put_repo : Option ℕ → Run → Run
  put_repo h s = record s { repo = h }

  abbrev pub put_part : Option ℕ → Run → Run
  put_part h s = record s { part = h }

  abbrev pub act : (g.Disk → ℤ × g.Disk) → Run → ℤ × Run
  act call s = let (e, d) = call s.disk in (e, record s { disk = d })

  -- git_remote_free and its like: nothing for a null pointer
  abbrev pub free : Option ℕ → Run → Run
  free none s = s
  free (some h) s = record (given s (some h)) { live = remove_one s.live h }

  -- Behind the label `clean`; the pointers go out of scope.
  unfoldable pub clean : Run → Run
  clean s = record (free s.repo (free s.part s)) { repo = none; part = none }

  abbrev pub cleaned : ℤ × Run → ℤ × Run
  cleaned (e, s) = (e, clean s)

  -- GIT_CHK_CLEAN: what follows is left out on an error.
  unfoldable pub check : ℤ × Run → (Run → ℤ × Run) → ℤ × Run
  check (e, s) next = if is_negative e then (e, s) else next s

  abbrev pub open_repo : String → Run → ℤ × Run
  open_repo path s = make put_repo (g.repository_open path) s

  -- Of the repository, and of the repository and the other object.
  abbrev pub make_part : (g.Disk → ℤ × g.Disk) → Run → ℤ × Run
  make_part call s = make put_part call (given s s.repo)

  abbrev pub with_repo : (g.Disk → ℤ × g.Disk) → Run → ℤ × Run
  with_repo call s = act call (given s s.repo)

  abbrev pub with_part : (g.Disk → ℤ × g.Disk) → Run → ℤ × Run
  with_part call s = act call (given s s.part)

  abbrev pub path_of : String → String
  path_of name = String.◌++◌ "packages/" name

  -- git_repository_free(repo) stands behind both branches.
  unfoldable pub clone : String → Run → ℤ × Run
  clone u s =
      let url = chop_slashes u in
      cleaned (make put_repo (g.git_clone url (path_of (chop_git (g.url_file_name url)))) s)

  unfoldable pub pull : String → Run → ℤ × Run
  pull name s =
      let path = path_of name in
      cleaned (
        check (open_repo path s) λ s₁. check (make_part (g.remote_lookup path "origin") s₁) λ s₂.
          check (with_part (g.remote_fetch path) s₂) λ s₃.
            check (with_repo (g.set_head path "FETCH_HEAD") s₃)
              λ s₄. with_repo (g.checkout_head path) s₄)

  unfoldable pub checkout : String → String → Run → ℤ × Run
  checkout name hash s =
      let path = path_of name in
      cleaned (
        check (open_repo path s) λ s₁. check (act (g.oid_fromstr hash) s₁) λ s₂.
          check (with_repo (g.set_head_detached path hash) s₂)
            λ s₃. with_repo (g.checkout_head path) s₃)

  unfoldable pub checkout_branch : String → String → Run → ℤ × Run
  checkout_branch name branch s =
      let path = path_of name in
      cleaned (
        check (open_repo path s) λ s₁.
          check (make_part (g.revparse_single path branch) s₁)
            λ s₂. with_part (g.checkout_tree path branch) (given s₂ s₂.repo))

  pub is_dirty : List ℕ → Bool
  is_dirty [] = false
  is_dirty (x ∷ xs) = not (x == g.status_current) && not (x == g.status_ignored) || is_dirty xs

  -- The objects are freed on both ways out, in the same order.
  unfoldable pub status : String → Run → ℤ × Run
  status name s =
      let path = path_of name in
      let (e, s₂) = check (open_repo path s) λ s₁. make_part (g.status_list_new path) s₁ in
      let found = if is_dirty (g.statuses path s₂.disk) then pos 1 else e in
      cleaned (if is_negative e then (e, s₂) else (found, given s₂ s₂.part))

  unfoldable pub head : String → Run → String × Run
  head name s =
      let path = path_of name in
      let (e, s') = check (open_repo path s) λ s₁. make_part (g.revparse_single path "HEAD") s₁ in
      let s'' = if is_negative e then s' else given s' s'.part in
      (if is_negative e then "" else g.oid_of path "HEAD" s'.disk, clean s'')

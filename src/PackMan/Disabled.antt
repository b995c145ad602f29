-- ===== src/PackMan/Disabled.antt =====
-- The disabled packages of src/core/packman.cpp: the column `enabled` against the list.
use free_kill.Base.{
  Bool-cases, Option-cases, ◌==◌, int_eq, nat_eq, string_eq, contains, remove_one, beq_refl,
  contains-append, String, ◌≡◌, refl, ap, ◌∙◌, inl, inr, Bool, true, false, not, ◌&&◌, ◌||◌, none,
  some, List, [], ◌∷◌, ◌++◌, arith,
}
use free_kill.PackMan.Names.{distinct, contains-remove_one, distinct-append, distinct-remove_one}
use free_kill.PackMan.{
  Package, Git, PackMan, find_package, delete_package, enable_pack, disable_pack, set_hash,
  download_new_pack, update_pack, remove_pack, disable_all, load_entry, load_entries, load_summary,
}

unfoldable pub has_row : List Package → String → Bool
has_row [] n = false
has_row (p ∷ ps) n = p.name == n || has_row ps n

unfoldable pub named : List (String × String × String) → String → Bool
named [] n = false
named ((m, url, h) ∷ es) n = m == n || named es n

-- Every row that is not enabled is listed.
pub listed : List Package → List String → Bool
listed [] ds = true
listed (p ∷ ps) ds = (p.enabled || contains ds p.name) && listed ps ds

pub is_enabled : List Package → String → Bool
is_enabled ps n = elim (find_package ps n) [ none ↦ false | some p ↦ p.enabled ]

find-delete : (ps : List Package) (n : String) → find_package (delete_package ps n) n ≡ none
unfolding find_package delete_package
find-delete [] n = refl
find-delete (p ∷ ps) n = ground (arith, find-delete ps n)

is_enabled-append :
    (ps : List Package) (n url h : String)
    → find_package ps n ≡ none
    → is_enabled (ps ++ record { name = n; url = url; hash = h; enabled = true } ∷ []) n ≡ true
unfolding is_enabled find_package
is_enabled-append [] n url h k = ground (arith, beq_refl n)
is_enabled-append (p ∷ ps) n url h k = elim (Bool-cases (p.name == n)) [
  | inl e ↦ ground (arith, e)
  | inr e ↦ ground (arith, e, is_enabled-append ps n url h)
]

module _ (g : Git) where
  -- disablePack lists the name, once.
  disable_lists :
      (m : PackMan g) (a n : String)
      → contains (disable_pack g m a).disabled_packs n ≡ (contains m.disabled_packs n || a == n)
  unfolding disable_pack contains
  disable_lists m a n =
      ground (arith, contains-append m.disabled_packs (a ∷ []) n, string_eq.same_iff a n)

  disable-distinct :
      (m : PackMan g) (a : String)
      → distinct m.disabled_packs ≡ true
      → distinct (disable_pack g m a).disabled_packs ≡ true
  unfolding disable_pack
  disable-distinct m a h = elim (Bool-cases (contains m.disabled_packs a)) [
    | inl e ↦ rw e h
    | inr e ↦ rw e (distinct-append m.disabled_packs a h e)
  ]

  disable_all_lists :
      (ps : List Package) (m : PackMan g) (n : String)
      → contains (disable_all g m ps).disabled_packs n
        ≡ (contains m.disabled_packs n || has_row ps n)
  unfolding disable_all has_row
  disable_all_lists [] m n = ground arith
  disable_all_lists (p ∷ ps) m n =
      ground (arith, disable_all_lists ps (disable_pack g m p.name) n, disable_lists m p.name n)

  disable_all-distinct :
      (ps : List Package) (m : PackMan g)
      → distinct m.disabled_packs ≡ true
      → distinct (disable_all g m ps).disabled_packs ≡ true
  unfolding disable_all
  disable_all-distinct [] m h = h
  disable_all-distinct (p ∷ ps) m h =
      disable_all-distinct ps (disable_pack g m p.name) (disable-distinct m p.name h)

  -- Installing and updating leave the list alone.
  download_keeps_list :
      (m : PackMan g) (url : String) → (download_new_pack g m url).disabled_packs ≡ m.disabled_packs
  unfolding download_new_pack
  download_keeps_list m url = elim (Option-cases (find_package m.packages (g.file_name url))) [
    | inl e ↦ rw (e, download_new_pack) refl
    | inr (p, e) ↦ rw (e, download_new_pack) refl
  ]

  update_keeps_list :
      (m : PackMan g) (a : String) → (update_pack g m a).disabled_packs ≡ m.disabled_packs
  unfolding update_pack
  update_keeps_list m a = elim (Option-cases (find_package m.packages a)) [
    | inl e ↦ rw (e, update_pack) refl
    | inr (p, e) ↦ rw (e, update_pack) (ground arith)
  ]

  load_entry_list :
      (m : PackMan g) (name url h : String)
      → (load_entry g m name url h).disabled_packs ≡ remove_one m.disabled_packs name
  unfolding load_entry set_hash enable_pack
  load_entry_list m name url h = elim (Option-cases (find_package m.packages name)) [
    | inl e ↦ rw e (
        ground (
          arith,
          download_keeps_list m url,
          update_keeps_list (enable_pack g (set_hash g (download_new_pack g m url) name h) name)
              name,
        ))
    | inr (p, e) ↦
        rw e (ground (arith, update_keeps_list (enable_pack g (set_hash g m name h) name) name))
  ]

  load_entry-distinct :
      (m : PackMan g) (name url h : String)
      → distinct m.disabled_packs ≡ true
      → distinct (load_entry g m name url h).disabled_packs ≡ true
  load_entry-distinct m name url h k =
      ap distinct (load_entry_list m name url h) ∙ distinct-remove_one m.disabled_packs name k

  -- One entry of a summary takes its name off the list.
  load_entry_lists :
      (m : PackMan g) (name url h n : String)
      → distinct m.disabled_packs ≡ true
      → contains (load_entry g m name url h).disabled_packs n
        ≡ (contains m.disabled_packs n && not (name == n))
  load_entry_lists m name url h n k =
      ap (λ ds. contains ds n) (load_entry_list m name url h)
      ∙ contains-remove_one m.disabled_packs name n k

  load_entries_list :
      (es : List (String × String × String)) (m : PackMan g) (n : String)
      → distinct m.disabled_packs ≡ true
      → contains (load_entries g m es).disabled_packs n
        ≡ (contains m.disabled_packs n && not (named es n))
  unfolding load_entries named
  load_entries_list [] m n k = ground arith
  load_entries_list ((name, url, h) ∷ es) m n k = ground (
    arith,
    load_entries_list es (load_entry g m name url h) n (load_entry-distinct m name url h k),
    load_entry_lists m name url h n k,
  )

  -- After a summary is loaded the disabled packages are those that were disabled or installed before
  -- and are not in the summary, provided that the list of disabled packages names none twice.
  pub load_summary_lists :
      (m : PackMan g) (es : List (String × String × String)) (n : String)
      → distinct m.disabled_packs ≡ true
      → contains (load_summary g m es).disabled_packs n
        ≡ ((contains m.disabled_packs n || has_row m.packages n) && not (named es n))
  unfolding load_summary
  load_summary_lists m es n k =
      load_entries_list es (disable_all g m m.packages) n (disable_all-distinct m.packages m k)
      ∙ ap (λ b. b && not (named es n)) (disable_all_lists m.packages m n)

  remove_finds_none :
      (m : PackMan g) (n : String) → find_package (remove_pack g m n).packages n ≡ none
  unfolding remove_pack
  remove_finds_none m n = elim (Option-cases (find_package m.packages n)) [
    | inl e ↦ rw (e, remove_pack) e
    | inr (p, e) ↦ rw (e, remove_pack) (find-delete m.packages n)
  ]

  remove_keeps_list :
      (m : PackMan g) (n : String) → (remove_pack g m n).disabled_packs ≡ m.disabled_packs
  unfolding remove_pack
  remove_keeps_list m n = elim (Option-cases (find_package m.packages n)) [
    | inl e ↦ rw (e, remove_pack) refl
    | inr (p, e) ↦ rw (e, remove_pack) refl
  ]

  download_enables :
      (m : PackMan g) (url : String)
      → find_package m.packages (g.file_name url) ≡ none
      → is_enabled (download_new_pack g m url).packages (g.file_name url) ≡ true
  unfolding download_new_pack
  download_enables m url h =
      rw (h, download_new_pack) (is_enabled-append m.packages (g.file_name url) url _ h)

  -- A disabled package that is removed and then installed again from its URL has an enabled row, and
  -- its name is still among the disabled packages.
  pub reinstalled_stays_disabled :
      (m : PackMan g) (url : String)
      → contains m.disabled_packs (g.file_name url) ≡ true
      → (is_enabled
            (download_new_pack g (remove_pack g m (g.file_name url)) url).packages
            (g.file_name url)
          ≡ true)
        × (contains
              (download_new_pack g (remove_pack g m (g.file_name url)) url).disabled_packs
              (g.file_name url)
            ≡ true)
  reinstalled_stays_disabled m url k = (
    download_enables (remove_pack g m (g.file_name url)) url
        (remove_finds_none m (g.file_name url)),
    ap (λ ds. contains ds (g.file_name url))
          (download_keeps_list (remove_pack g m (g.file_name url)) url
            ∙ remove_keeps_list m (g.file_name url))
        ∙ k,
  )

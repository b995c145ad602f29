-- ===== src/Util/LineEnds.antt =====
-- The checksum of src/core/util.cpp and the two ways to end a line.
use free_kill.Util.{
  UtilEnv, Entry, Entries, Disk, file, dir, nil, more, replace_crlf, write_file_md5, write_all,
  write_fk_ver_md5, write_entry_md5, write_dir_md5, calc_file_md5,
}
use free_kill.Base.{
  if◌then◌else◌, Bool-cases, Option-cases, ◌==◌, nat_eq, nat_beq_iff, string_eq, contains, ℕ,
  String, ◌≡◌, refl, sym, ap, ◌∙◌, Bool, true, false, not, ◌&&◌, Option, none, some, List, [], ◌∷◌,
  inl, inr, arith,
}

-- The same text with the other line ends.
pub to_crlf : List ℕ → List ℕ
to_crlf [] = []
to_crlf (a ∷ bs) = let rest = to_crlf bs in if a == 10 then 13 ∷ 10 ∷ rest else a ∷ rest

keeps-other :
    (a : ℕ) (bs : List ℕ) → (a == 13) ≡ false → replace_crlf (a ∷ bs) ≡ a ∷ replace_crlf bs
unfolding replace_crlf
keeps-other a [] h = refl
keeps-other a (b ∷ bs) h = rw h refl

replace_crlf-to_crlf : (bs : List ℕ) → contains bs 13 ≡ false → replace_crlf (to_crlf bs) ≡ bs
unfolding to_crlf contains replace_crlf
replace_crlf-to_crlf [] h = refl
replace_crlf-to_crlf (a ∷ bs) h =
    let tail = replace_crlf-to_crlf bs (ground arith) in
    elim (Bool-cases (a == 10)) [
      | inl e ↦
          rw e
            (keeps-other 10 (to_crlf bs) refl ∙ rw (sym ((nat_beq_iff a 10).0 e)) (ap (◌∷◌ a) tail))
      | inr e ↦ rw e (keeps-other a (to_crlf bs) (ground arith) ∙ ap (◌∷◌ a) tail)
    ]

replace_crlf-unix : (bs : List ℕ) → contains bs 13 ≡ false → replace_crlf bs ≡ bs
unfolding contains replace_crlf
replace_crlf-unix [] h = refl
replace_crlf-unix (a ∷ bs) h =
    keeps-other a bs (ground arith) ∙ ap (◌∷◌ a) (replace_crlf-unix bs (ground arith))

abbrev pub with_crlf : Option (List ℕ) → Option (List ℕ)
with_crlf none = none
with_crlf (some bytes) = some (to_crlf bytes)

-- A disk on which every file has the other line ends.
abbrev pub crlf_disk : Disk → Disk
crlf_disk d = record d { read = λ p. with_crlf (d.read p) }

-- No file of the disk has a carriage return.
abbrev pub IsUnix : Disk → Type 0
IsUnix d = (p : String) (bytes : List ℕ) → d.read p ≡ some bytes → contains bytes 13 ≡ false

module _ (m : UtilEnv) (d : Disk) (unix : IsUnix d) where
  same_file :
      (dest fname : String)
      → write_file_md5 m (crlf_disk d) dest fname ≡ write_file_md5 m d dest fname
  unfolding write_file_md5
  same_file dest fname = elim (Option-cases (d.read fname)) [
    | inl e ↦ rw (write_file_md5, e) refl
    | inr (bytes, e) ↦
        let clean = unix fname bytes e in
        rw (write_file_md5, e, replace_crlf-to_crlf bytes clean, replace_crlf-unix bytes clean) refl
  ]

  same_all :
      (ss : List String) (dest : String) → write_all m (crlf_disk d) dest ss ≡ write_all m d dest ss
  unfolding write_all
  same_all [] dest = refl
  same_all (s ∷ ss) dest =
      ap (λ t. write_all m (crlf_disk d) t ss) (same_file dest s)
      ∙ same_all ss (write_file_md5 m d dest s)

  same_if :
      (t : Bool) {a b c e : String} → a ≡ c → b ≡ e → (if t then a else b) ≡ (if t then c else e)
  same_if true x y = x
  same_if false x y = y

  module _ (disabled : List String) (filter : String) where
    mutual
      unfolding write_entry_md5

      same_entry :
          (e : Entry) (path dest : String)
          → write_entry_md5 m (crlf_disk d) disabled filter path dest e
            ≡ write_entry_md5 m d disabled filter path dest e
      same_entry (file name) path dest = same_if (m.matches filter name) (same_file dest _) refl
      same_entry (dir name es) path dest =
          same_if (not (m.ends_in_disabled name) && not (contains disabled name))
            (same_dir es _ dest) (same_if (m.matches filter name) (same_file dest _) refl)

      same_dir :
          (es : Entries) (path dest : String)
          → write_dir_md5 m (crlf_disk d) disabled filter path dest es
            ≡ write_dir_md5 m d disabled filter path dest es
      same_dir nil path dest = refl
      same_dir (more e es) path dest =
          ap (λ t. write_dir_md5 m (crlf_disk d) disabled filter path t es) (same_entry e path dest)
          ∙ same_dir es path (write_entry_md5 m d disabled filter path dest e)

  same_fk_ver : (dest : String) → write_fk_ver_md5 m (crlf_disk d) dest ≡ write_fk_ver_md5 m d dest
  unfolding write_fk_ver_md5
  same_fk_ver dest = elim (Option-cases d.fk_ver) [
    | inl e ↦ rw (write_fk_ver_md5, e) refl
    | inr (names, e) ↦ rw (write_fk_ver_md5, e) (same_all (m.sort names) dest)
  ]

  -- One walk through the packages after the other.
  step_dir :
      (disabled : List String) (filter : String) {t u : String}
      → t ≡ u
      → write_dir_md5 m (crlf_disk d) disabled filter "packages" t d.packages
        ≡ write_dir_md5 m d disabled filter "packages" u d.packages
  step_dir disabled filter {t} {u} e =
      ap (λ v. write_dir_md5 m (crlf_disk d) disabled filter "packages" v d.packages) e
      ∙ same_dir disabled filter d.packages "packages" u

  -- If no file holds a carriage return, then the checksum is the same when every line of every file
  -- ends in one and a line feed, whatever packages are disabled.
  pub calc_file_md5-crlf :
      (disabled : List String) → calc_file_md5 m (crlf_disk d) disabled ≡ calc_file_md5 m d disabled
  unfolding calc_file_md5
  calc_file_md5-crlf disabled = ap m.md5_of_text (
      step_dir disabled "*.js"
        (step_dir disabled "*.qml" (step_dir disabled "*.lua" (same_fk_ver ""))))

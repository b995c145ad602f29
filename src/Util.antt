-- ===== src/Util.antt =====
-- src/core/util.cpp: calcFileMD5, the checksum of the code files that client and server compare.
pub mod LineEnds
use Prim.Native.String
use free_kill.Base.{
  if◌then◌else◌, ◌==◌, nat_eq, string_eq, contains, ℕ, String, Bool, true, false, not, ◌&&◌, Option,
  none, some, List, [], ◌∷◌,
}

-- Qt: checksums as hexadecimal texts, wildcards, names that end in ".disabled", the order of names.
pub record UtilEnv : Type 0 where
  pub md5_of_bytes : List ℕ → String
  pub md5_of_text : String → String
  pub matches : String → String → Bool  -- a wildcard and a name
  pub ends_in_disabled : String → Bool
  pub sort : List String → List String

-- What entryInfoList gives, in the order of the names.
mutual
  pub data Entry : Type 0 where
    file : String → Entry
    dir : String → Entries → Entry

  pub data Entries : Type 0 where
    nil : Entries
    more : Entry → Entries → Entries

-- The files by their paths; none cannot be opened. `fk_ver` holds the lines after the first.
pub record Disk : Type 0 where
  pub read : String → Option (List ℕ)
  pub packages : Entries
  pub fk_ver : Option (List String)

-- data.replace("\r\n", "\n")
unfoldable pub replace_crlf : List ℕ → List ℕ
replace_crlf [] = []
replace_crlf (a ∷ []) = a ∷ []
replace_crlf (a ∷ b ∷ cs) =
    let here = replace_crlf (b ∷ cs) in if a == 13 && b == 10 then here else a ∷ here

abbrev concat3 : String → String → String → String
concat3 a b c = String.◌++◌ a (String.◌++◌ b c)

-- What is appended for a file: its name, `=`, its checksum and `;`.
unfoldable pub write_file_md5 : UtilEnv → Disk → String → String → String
write_file_md5 m d dest fname = elim (d.read fname) [
  | none ↦ dest
  | some bytes ↦
      concat3 dest (String.◌++◌ fname "=") (String.◌++◌ (m.md5_of_bytes (replace_crlf bytes)) ";")
]

unfoldable pub write_all : UtilEnv → Disk → String → List String → String
write_all m d dest [] = dest
write_all m d dest (s ∷ ss) = write_all m d (write_file_md5 m d dest s) ss

unfoldable pub write_fk_ver_md5 : UtilEnv → Disk → String → String
write_fk_ver_md5 m d dest = elim d.fk_ver [
  | none ↦ dest
  | some names ↦ write_all m d dest (m.sort names)
]

-- A directory that is disabled is treated as a file.
unfoldable mutual
  pub write_entry_md5 : UtilEnv → Disk → List String → String → String → String → Entry → String
  write_entry_md5 m d disabled filter path dest (file name) =
      if m.matches filter name then write_file_md5 m d dest (concat3 path "/" name) else dest
  write_entry_md5 m d disabled filter path dest (dir name es) =
      let inside = write_dir_md5 m d disabled filter (concat3 path "/" name) dest es in
      if not (m.ends_in_disabled name) && not (contains disabled name)
      then inside
      else if m.matches filter name
      then write_file_md5 m d dest (concat3 path "/" name)
      else dest

  pub write_dir_md5 : UtilEnv → Disk → List String → String → String → String → Entries → String
  write_dir_md5 m d disabled filter path dest nil = dest
  write_dir_md5 m d disabled filter path dest (more e es) =
      write_dir_md5 m d disabled filter path (write_entry_md5 m d disabled filter path dest e) es

-- With the list of disabled packages that Pacman holds.
unfoldable pub calc_file_md5 : UtilEnv → Disk → List String → String
calc_file_md5 m d disabled =
    let f₁ = write_fk_ver_md5 m d "" in
    let f₂ = write_dir_md5 m d disabled "*.lua" "packages" f₁ d.packages in
    let f₃ = write_dir_md5 m d disabled "*.qml" "packages" f₂ d.packages in
    m.md5_of_text (write_dir_md5 m d disabled "*.js" "packages" f₃ d.packages)

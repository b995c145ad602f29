-- ===== src/Tests/UtilRuns.antt =====
-- A checksum of a package whose files end their lines in one way and in the other.
use mathlib.Core.Path.{subst}
use mathlib.Core.Option.{some-injective}
use free_kill.Util.{UtilEnv, Disk, file, dir, nil, more, calc_file_md5}
use free_kill.Util.LineEnds.{crlf_disk, IsUnix, calc_file_md5-crlf}
use free_kill.Base.{
  if◌then◌else◌, ◌==◌, ◌&&◌, nat_eq, string_eq, contains, ◌≡◌, refl, false, some, [], ◌∷◌,
}

abbrev sums : UtilEnv
sums = record {
  md5_of_bytes = λ bytes. if contains bytes 13 then "crlf" else "lf";
  md5_of_text = λ text. text;
  matches = λ filter name. filter == "*.lua" && name == "x.lua";
  ends_in_disabled = λ name. name == "b.disabled";
  sort = λ names. names;
}

abbrev a_disk : Disk
a_disk = record {
  read = λ path. some (65 ∷ 10 ∷ 66 ∷ []);
  packages =
      more (dir "a" (more (file "x.lua") nil))
        (more (dir "b.disabled" (more (file "x.lua") nil)) nil);
  fk_ver = some ("lua/freekill.lua" ∷ []);
}

a_disk-IsUnix : IsUnix a_disk
unfolding contains
a_disk-IsUnix path bytes h = subst (λ bs. contains bs 13 ≡ false) (some-injective _ bytes h) refl

calc_file_md5-crlf_example :
    calc_file_md5 sums (crlf_disk a_disk) ("old" ∷ []) ≡ calc_file_md5 sums a_disk ("old" ∷ [])
calc_file_md5-crlf_example = calc_file_md5-crlf sums a_disk a_disk-IsUnix ("old" ∷ [])

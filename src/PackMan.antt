-- ===== src/PackMan.antt =====
-- src/core/packman.{h,cpp}: the table of packages and the list of disabled packages. The functions
-- that drive libgit2 and the file system are a parameter, over a state of their own.
pub mod Disabled
pub mod Names
pub mod Repository
pub mod Tidy
pub mod Handles
pub mod Errors
use free_kill.Base.{
  not, ◌&&◌, ◌||◌, if◌then◌else◌, is_empty, ◌==◌, string_eq, contains, remove_one, String, Bool,
  true, false, Option, none, some, List, [], ◌∷◌, ◌++◌,
}

pub record Package : Type 0 where
  pub name : String
  pub url : String
  pub hash : String
  pub enabled : Bool

-- The answers of clone, pull, checkout and checkout_branch are true if the error is not negative;
-- status says that the tree is clean, error 0.
pub record Git : Type 1 where
  pub Disk : Type 0
  pub clone : String → Disk → Disk × Bool
  pub pull : String → Disk → Disk × Bool
  pub checkout : String → String → Disk → Disk × Bool
  pub checkout_branch : String → String → Disk → Disk × Bool
  pub status : String → Disk → Bool
  pub head : String → Disk → String
  pub remove : String → Disk → Disk  -- removeRecursively
  pub file_name : String → String  -- the last part of a URL, less "/" and ".git" at its end

-- SELECT ... WHERE name = '%1': the first row
pub find_package : List Package → String → Option Package
find_package [] n = none
find_package (p ∷ ps) n = if p.name == n then some p else find_package ps n

update_package : List Package → String → (Package → Package) → List Package
update_package [] n f = []
update_package (p ∷ ps) n f = (if p.name == n then f p else p) ∷ update_package ps n f

pub delete_package : List Package → String → List Package
delete_package [] n = []
delete_package (p ∷ ps) n = let rest = delete_package ps n in if p.name == n then rest else p ∷ rest

-- The constructor's loop over the table
read_disabled : List Package → List String → List String
read_disabled [] ds = ds
read_disabled (p ∷ ps) ds = read_disabled ps (if p.enabled then ds else ds ++ p.name ∷ [])

module _ (g : Git) where
  pub record PackMan : Type 0 where
    pub packages : List Package
    pub disabled_packs : List String
    pub disk : g.Disk

  pub start : List Package → g.Disk → PackMan
  unfolding read_disabled
  start ps d = record { packages = ps; disabled_packs = read_disabled ps []; disk = d }

  pub enable_pack : PackMan → String → PackMan
  enable_pack m pack = record m {
    packages = update_package m.packages pack (λ p. record p { enabled = true });
    disabled_packs = remove_one m.disabled_packs pack;
  }

  pub disable_pack : PackMan → String → PackMan
  disable_pack m pack = record m {
    packages = update_package m.packages pack (λ p. record p { enabled = false });
    disabled_packs =
        if contains m.disabled_packs pack then m.disabled_packs else m.disabled_packs ++ pack ∷ [];
  }

  set_hash : PackMan → String → String → PackMan
  set_hash m pack h = record m {
    packages = update_package m.packages pack (λ p. record p { hash = h });
  }

  pub download_new_pack : PackMan → String → PackMan
  download_new_pack m url =
      let (disk, ok) = g.clone url m.disk in
      let name = g.file_name url in
      elim (find_package m.packages name) [
        | some p ↦ record m { disk = disk }
        | none ↦ record m {
          packages =
              m.packages
              ++ record {
                name = name;
                url = url;
                hash = if ok then g.head name disk else "XXXXXXXX";
                enabled = true;
              }
                ∷ [];
          disk = disk;
        }
      ]

  pub update_pack : PackMan → String → PackMan
  update_pack m pack = elim (find_package m.packages pack) [
    | none ↦ m
    | some p ↦
        if g.status pack m.disk
        then (let (disk, ok) = g.pull pack m.disk in
            if ok
            then record m { disk = (g.checkout pack p.hash disk).0 }
            else record m { disk = disk })
        else m
  ]

  pub upgrade_pack : PackMan → String → PackMan
  upgrade_pack m pack =
      let (disk, ok) = g.checkout_branch pack "master" m.disk in
      if ok
      then if g.status pack disk
        then (let (pulled, done) = g.pull pack disk in
            let n = record m { disk = pulled } in
            if done then set_hash n pack (g.head pack pulled) else n)
        else record m { disk = disk }
      else record m { disk = disk }

  pub remove_pack : PackMan → String → PackMan
  remove_pack m pack = elim (find_package m.packages pack) [
    | none ↦ m
    | some p ↦ record m { packages = delete_package m.packages pack; disk = g.remove pack m.disk }
  ]

  disable_all : PackMan → List Package → PackMan
  disable_all m [] = m
  disable_all m (p ∷ ps) = disable_all (disable_pack m p.name) ps

  -- One object of the summary: name, url and hash
  pub load_entry : PackMan → String → String → String → PackMan
  load_entry m name url h =
      let fetched : PackMan = elim (find_package m.packages name) [
        | none ↦ download_new_pack m url
        | some p ↦ m
      ] in
      let enabled = enable_pack (set_hash fetched name h) name in
      if g.head name enabled.disk == h then enabled else update_pack enabled name

  load_entries : PackMan → List (String × String × String) → PackMan
  load_entries m [] = m
  load_entries m ((name, url, h) ∷ es) = load_entries (load_entry m name url h) es

  -- loadSummary, the text being read
  pub load_summary : PackMan → List (String × String × String) → PackMan
  load_summary m es = load_entries (disable_all m m.packages) es

-- ===== src/Shell/Completion.antt =====
-- Completion in src/server/shell.cpp: generateCommand, repo_generator, package_generator,
-- user_generator and banned_user_generator are one loop over a list of names, which goes on where
-- the last call stopped; readline's rl_completion_matches calls them until they answer NULL.
use free_kill.Base.{
  ltb, if◌then◌else◌, length, drop, ◌==◌, nat_eq, string_eq, ℕ, zero, suc, String, Bool, true,
  false, ◌&&◌, ◌||◌, Option, none, some, List, [], ◌∷◌, map,
}
use Prim.Native.Char.{code}
use free_kill.PackMan.{Package}
use free_kill.Database.{UserInfo}
use free_kill.World.{World}

-- strncmp(name, text, strlen(text)) == 0
unfoldable pub has_prefix : String → String → Bool
has_prefix name String.[] = true
has_prefix String.[] (String.◌∷◌ c text) = false
has_prefix (String.◌∷◌ b name) (String.◌∷◌ c text) = code b == code c && has_prefix name text

-- The static variables of a generator.
pub record Generator : Type 0 where
  pub arr : List String
  pub list_index : ℕ

-- The bytes of a name are freed before they are read, twice: what strncmp and strdup find there.
pub record Reading : Type 0 where
  pub compared : String
  pub copied : String

-- The loop over what is left of the list, with what is read where the bytes of a name stood
unfoldable pub scan : (String → Reading) → String → List String → ℕ → Option String × ℕ
scan read text [] i = (none, i)
scan read text (name ∷ names) i =
    let rest = scan read text names (suc i) in
    if has_prefix (read name).compared text then (some (read name).copied, suc i) else rest

-- One call, with the names as they are at the moment of the call.
unfoldable pub generate :
    (String → Reading) → List String → String → ℕ → Generator → Option String × Generator
generate read names text state g =
    let g₁ : Generator = if state == 0 then record { arr = names; list_index = 0 } else g in
    let (found, i) = scan read text (drop g₁.list_index g₁.arr) g₁.list_index in
    (found, record g₁ { list_index = i })

-- generateCommand, with the keys of handler_map in QHash's order
unfoldable pub generate_command :
    (String → Reading) → List String → String → ℕ → Generator → Option String × Generator
unfolding generate
generate_command read keys = generate read keys

abbrev pub recommend_repos : List String
recommend_repos =
    "https://gitee.com/Qsgs-Fans/standard_ex" ∷ "https://gitee.com/Qsgs-Fans/shzl"
    ∷ "https://gitee.com/Qsgs-Fans/sp" ∷ "https://gitee.com/Qsgs-Fans/yj"
    ∷ "https://gitee.com/Qsgs-Fans/ol" ∷ "https://gitee.com/Qsgs-Fans/mougong"
    ∷ "https://gitee.com/Qsgs-Fans/mobile" ∷ "https://gitee.com/Qsgs-Fans/tenyear"
    ∷ "https://gitee.com/Qsgs-Fans/overseas" ∷ "https://gitee.com/Qsgs-Fans/jsrg"
    ∷ "https://gitee.com/Qsgs-Fans/qsgs" ∷ "https://gitee.com/Qsgs-Fans/mini"
    ∷ "https://gitee.com/Qsgs-Fans/gamemode" ∷ "https://gitee.com/Qsgs-Fans/utility"
    ∷ "https://gitee.com/Qsgs-Fans/freekill-core" ∷ "https://gitee.com/Qsgs-Fans/offline"
    ∷ "https://gitee.com/Qsgs-Fans/hegemony" ∷ "https://gitee.com/Qsgs-Fans/lunar" ∷ []

unfoldable pub repo_generator :
    (String → Reading) → String → ℕ → Generator → Option String × Generator
unfolding generate
repo_generator read = generate read recommend_repos

-- listPackages, whose text is parsed back
unfoldable pub package_generator :
    (String → Reading) → List Package → String → ℕ → Generator → Option String × Generator
unfolding generate
package_generator read ps = generate read (map (λ p. p.name) ps)

-- SELECT name FROM userinfo
unfoldable pub user_generator :
    (String → Reading) → World → String → ℕ → Generator → Option String × Generator
unfolding generate
user_generator read w = generate read (map (λ u. u.name) w.db.userinfo)

-- SELECT name FROM userinfo WHERE banned = 1
unfoldable pub banned_names : List UserInfo → List String
banned_names [] = []
banned_names (u ∷ us) = let rest = banned_names us in if u.banned then u.name ∷ rest else rest

unfoldable pub banned_user_generator :
    (String → Reading) → World → String → ℕ → Generator → Option String × Generator
unfolding generate banned_names
banned_user_generator read w = generate read (banned_names w.db.userinfo)

-- rl_completion_matches: state 0 at first, then another, up to NULL.
unfoldable pub collect :
    ℕ → (ℕ → Generator → Option String × Generator) → ℕ → Generator → List String
collect zero call state g = []
collect (suc fuel) call state g =
    let (found, g₁) = call state g in
    let rest = collect fuel call 1 g₁ in elim found [ none ↦ [] | some name ↦ name ∷ rest ]

-- fk_completion, with the same choice among the generators
unfoldable pub fk_completion :
    (String → Reading)
    → ℕ
    → List String
    → List Package
    → World
    → Generator
    → ℕ
    → List String
    → String
    → List String
unfolding has_prefix generate_command repo_generator package_generator user_generator
    banned_user_generator
fk_completion read fuel keys ps w g zero words text =
    collect fuel (generate_command read keys text) 0 g
fk_completion read fuel keys ps w g (suc start) [] text = []
fk_completion read fuel keys ps w g (suc start) (command ∷ words) text =
    if ltb 1 (length words)
    then []
    else if command == "install"
    then collect fuel (repo_generator read text) 0 g
    else if command == "remove"
        || (command == "upgrade" || (command == "enable" || command == "disable"))
    then collect fuel (package_generator read ps text) 0 g
    else if has_prefix command "ban" || (command == "resetpassword" || command == "rp")
    then collect fuel (user_generator read w text) 0 g
    else if has_prefix command "unban"
    then collect fuel (banned_user_generator read w text) 0 g
    else []

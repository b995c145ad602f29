-- ===== src/Shell.antt =====
-- The console of the server, src/server/shell.cpp: bans by name, passwords, kicks and messages. Line
-- is the dispatch of a line, Completion readline's, Listing what is shown, Packages the commands on
-- Pacman; Bans, Matching and Duration are proofs.
pub mod Bans
pub mod Completion
pub mod Matching
pub mod Line
pub mod Listing
pub mod Packages
pub mod Duration
use free_kill.Server.Ban
use free_kill.Base.{
  if◌then◌else◌, is_empty, ◌==◌, string_eq, nat_eq, int_eq, ℕ, String, Bool, true, false, not,
  Option, none, some, List, [], ◌∷◌, ◌++◌,
}
use free_kill.Base.Int.{ℤ}
use free_kill.Database.{UserInfo, find_user, update_user, find_column}
use free_kill.SqlText.{check_string}
use free_kill.World.{World, Env, text}
use free_kill.World.Notify.{broadcast}
use free_kill.ServerPlayer.Disconnect.{kick}

-- `auto p = findPlayer(id); if (p) p->kicked();`
abbrev pub kick_found : Env → World → Option ℕ → World
kick_found env w none = w
kick_found env w (some p) = kick env w p

-- The row of a name that may stand in a statement.
unfoldable pub known_user : World → String → Option UserInfo
known_user w name = if not (check_string name) then none else find_user w.db.userinfo name

unfoldable pub set_banned : World → ℤ → Bool → World
set_banned w i banned = record w {
  db = record w.db { userinfo = update_user w.db.userinfo i (λ u. record u { banned = banned }) };
}

-- banAccount
unfoldable pub ban_account : Env → World → String → Bool → World
unfolding set_banned
ban_account env w name banned = elim (known_user w name) [
  | none ↦ w
  | some u ↦
      let w₁ = set_banned w u.id banned in
      if banned then kick_found env w₁ (Ban.find_player w₁ u.id) else w₁
]

-- DELETE FROM ... WHERE the column is the text
pub delete_text : List String → String → List String
delete_text [] t = []
delete_text (x ∷ xs) t = let rest = delete_text xs t in if x == t then rest else x ∷ rest

-- banIPByName
unfoldable pub ban_ip_by_name : Env → World → String → Bool → World
unfolding delete_text
ban_ip_by_name env w name banned = elim (known_user w name) [
  | none ↦ w
  | some u ↦
      if banned
      then (let w₁ = record w { db = record w.db { banip = w.db.banip ++ u.last_login_ip ∷ [] } } in
          kick_found env w₁ (Ban.find_player w₁ u.id))
      else record w { db = record w.db { banip = delete_text w.db.banip u.last_login_ip } }
]

abbrev pub set_uuid_ban : Env → World → ℤ → Option String → Bool → World
set_uuid_ban env w i none banned = w
set_uuid_ban env w i (some uuid) banned =
    if banned
    then (let w₁ = record w { db = record w.db { banuuid = w.db.banuuid ++ uuid ∷ [] } } in
        kick_found env w₁ (Ban.find_player w₁ i))
    else record w { db = record w.db { banuuid = delete_text w.db.banuuid uuid } }

-- banUuidByName
unfoldable pub ban_uuid_by_name : Env → World → String → Bool → World
ban_uuid_by_name env w name banned = elim (known_user w name) [
  | none ↦ w
  | some u ↦ set_uuid_ban env w u.id (find_column w.db.uuidinfo u.id) banned
]

unfoldable pub for_each : (World → String → World) → World → List String → World
for_each f w [] = w
for_each f w (n ∷ ns) = for_each f (f w n) ns

-- banipCommand, unbanipCommand
unfoldable pub ban_ip_command : Env → World → List String → Bool → World
ban_ip_command env w names banned = for_each (λ v n. ban_ip_by_name env v n banned) w names

-- banUuidCommand, unbanUuidCommand
unfoldable pub ban_uuid_command : Env → World → List String → Bool → World
ban_uuid_command env w names banned = for_each (λ v n. ban_uuid_by_name env v n banned) w names

-- banCommand, unbanCommand: the accounts, then the UUIDs
unfoldable pub ban_command : Env → World → List String → Bool → World
ban_command env w names banned =
    ban_uuid_command env (for_each (λ v n. ban_account env v n banned) w names) names banned

-- UPDATE userinfo ... WHERE name='%1', for a name without a quote, which the source does not check
pub set_password : List UserInfo → String → List UserInfo
set_password [] name = []
set_password (u ∷ us) name =
    (if u.name == name
      then record u {
        password = "dbdc2ad3d9625407f55674a00b58904242545bfafedac67485ac398508403ade";
        salt = "00000000";
      }
      else u)
    ∷ set_password us name

-- resetPasswordCommand
unfoldable pub reset_password_command : World → List String → World
reset_password_command w names =
    for_each (λ v n. record v { db = record v.db { userinfo = set_password v.db.userinfo n } }) w
      names

-- kickCommand, the number being read
unfoldable pub kick_command : Env → World → Option ℤ → World
kick_command env w none = w
kick_command env w (some i) = kick_found env w (Ban.find_player w i)

-- msgCommand, the words being joined; none if there are none
unfoldable pub msg_command : World → Option String → World
msg_command w none = w
msg_command w (some msg) = broadcast w "ServerMessage" (text msg)

-- ===== src/Server/Auth.antt =====
-- AuthManager: the client's version, and the name and password (src/server/auth.cpp), with
-- Server::sendEarlyPacket (server.cpp).
use free_kill.Server.Ban
use free_kill.Base.{
  leb, if◌then◌else◌, length, drop, ◌==◌, int_eq, nat_eq, string_eq, contains, ℕ, String, Bool,
  true, false, not, ◌&&◌, ◌||◌, Option, none, some, List, [], ◌∷◌, ◌++◌, map,
}
use free_kill.Base.Int.{is_negative, successor, leb_ℤ, ℤ, pos}
use free_kill.Json.{is_array, to_string, to_list}
use free_kill.Player.{state_beq, online, robot, offline}
use free_kill.Database.{find_user, UserInfo}
use free_kill.SqlText.{latin1, check_string}
use free_kill.World.{Payload, World, Env, text}
use free_kill.World.Notify.{do_notify}
use free_kill.ServerPlayer.Disconnect.{disconnect_from_host, kick}
use free_kill.ServerPlayer.Session.{reconnect}

-- sendEarlyPacket: to a socket that has no player yet
abbrev pub send_early : World → ℕ → String → Payload → World
send_early w s c b = record w { sent = w.sent ++ record { to = s; command = c; body = b } ∷ [] }

-- An error for the client, and the end of the connection.
unfoldable pub refuse : World → ℕ → String → String → World
refuse w s c m = disconnect_from_host (send_early w s c (text m)) s

unfoldable pub check_client_version : Env → World → ℕ → String → Bool × World
check_client_version env w s version =
    let order = env.compare_version version in
    if order == pos 0 then (true, w) else (
      false,
      refuse w s "ErrorDlg" (
          if is_negative order
          then "[\"server is still on version %%2\",\"%1\"]"
          else "[\"server is using version %%2, please update\",\"%1\"]"),
    )

-- AUTOINCREMENT: rows are never deleted, so the next id is one above the largest.
pub next_user_id : ℤ → List UserInfo → ℤ
next_user_id top [] = successor top
next_user_id top (u ∷ us) = next_user_id (if leb_ℤ top u.id then u.id else top) us

-- queryUserInfo: the row of the name, which is made first if there is none
unfoldable pub query_user_info : Env → World → ℕ → String → List ℕ → String → UserInfo × World
query_user_info env w s name password fresh_salt = elim (find_user w.db.userinfo name) [
  | some u ↦ (u, w)
  | none ↦
      let u : UserInfo = record {
        id = next_user_id (pos 0) w.db.userinfo;
        name = name;
        password = env.sha256_hex (password ++ latin1 fresh_salt);
        salt = fresh_salt;
        avatar = "liubei";
        last_login_ip = (w.sock s).peer_address;
        banned = false;
      } in
      (
        u,
        record w {
          db = record w.db {
            userinfo = w.db.userinfo ++ u ∷ [];
            game_time = w.db.game_time ++ (u.id, 0) ∷ [];
          };
        },
      )
]

-- What stands against a name before the database is asked.
unfoldable pub name_error : World → String → Option String
name_error w name =
    if name == "" || (not (check_string name) || not (Ban.check_ban_word w name))
    then some "invalid user name"
    else if is_array (Ban.get_config w "whitelist")
        && not (contains (map to_string (to_list (Ban.get_config w "whitelist"))) name)
    then some "user name not in whitelist"
    else none

-- What stands against a row.
unfoldable pub account_error : Env → UserInfo → List ℕ → Option String
account_error env u password =
    if u.banned
    then some "you have been banned!"
    else if not (env.sha256_hex (password ++ latin1 u.salt) == u.password)
    then some "username or password error"
    else none

-- The end of checkPassword for a player who is still in the server's map: whoever is online is
-- kicked; who is offline then takes the new socket.
unfoldable pub take_over : Env → World → ℕ → ℕ → World
take_over env w p s =
    let state₀ = (w.player p).state in
    let w₁ =
      if state_beq state₀ online || state_beq state₀ robot
      then kick env (do_notify w p "ErrorDlg" (text "others logged in again with this name")) p
      else w in
    if state_beq (w₁.player p).state offline
    then reconnect env w₁ p s
    else refuse w₁ s "ErrorDlg" "others logged in with this name"

-- checkPassword once the row is known
unfoldable pub account_result : Env → World → ℕ → UserInfo → List ℕ → Option UserInfo × World
account_result env w s u pw = elim (account_error env u pw) [
  | some m ↦ (none, refuse w s "ErrorDlg" m)
  | none ↦ elim (Ban.find_player w u.id) [
    | some p ↦ (none, take_over env w p s)
    | none ↦ (some u, w)
  ]
]

-- checkPassword: the row, if the player is to be let in as a new one
unfoldable pub check_password : Env → World → ℕ → String → String → String → Option UserInfo × World
check_password env w s name password fresh_salt =
    let decrypted = env.decrypt password in
    if leb (length decrypted) 32
    then (none, refuse w s "ErrorDlg" "unknown password error")
    else (let pw = drop 32 decrypted in
        let w₁ = send_early w s "InstallKey" (text "") in
        elim (name_error w₁ name) [
          | some m ↦ (none, refuse w₁ s "ErrorDlg" m)
          | none ↦
              let (u, w₂) = query_user_info env w₁ s name pw fresh_salt in
              account_result env w₂ s u pw
        ])

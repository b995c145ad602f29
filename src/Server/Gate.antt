-- ===== src/Server/Gate.antt =====
-- Who gets in: the refusals of src/server/server.cpp and auth.cpp.
use free_kill.Server.Ban
use free_kill.Base.{
  leb, if◌then◌else◌, Bool-cases, length, drop, ◌==◌, int_eq, nat_eq, string_eq, ℕ, String, ◌≡◌,
  refl, sym, ap, ◌∙◌, inl, inr, Bool, true, false, not, ◌&&◌, Option, none, some, List, ◌++◌, arith,
  eq_iff,
}
use free_kill.Base.Int.{pos}
use free_kill.Json.{at, to_string, Json}
use free_kill.Database.{UserInfo}
use free_kill.SqlText.{latin1, check_string}
use free_kill.World.{Payload, World, Env, text}
use free_kill.Server.Auth.{
  send_early, refuse, check_client_version, query_user_info, name_error, account_error,
  account_result, check_password,
}
use free_kill.Server.Login.{set_timer, setup_parts, uuid_banned, process_setup, process_request}
use free_kill.ServerPlayer.Disconnect.{disconnect_from_host}

-- What has to hold of a name and of its row.
pub record Credentials (env : Env) (w : World) (name password : String) (u : UserInfo)
    : Type 0 where
  pub long_enough : leb (length (env.decrypt password)) 32 ≡ false
  pub named : (name == "") ≡ false
  pub clean : check_string name ≡ true
  pub decent : Ban.check_ban_word w name ≡ true
  pub not_banned : u.banned ≡ false
  pub right_password : env.sha256_hex (drop 32 (env.decrypt password) ++ latin1 u.salt) ≡ u.password

name_ok :
    (w : World) (name : String)
    → name_error w name ≡ none
    → ((name == "") ≡ false) × (check_string name ≡ true) × (Ban.check_ban_word w name ≡ true)
unfolding name_error
name_ok w name h = (ground arith, ground arith, ground arith)

account_ok :
    (env : Env) (u : UserInfo) (pw : List ℕ)
    → account_error env u pw ≡ none
    → (u.banned ≡ false) × (env.sha256_hex (pw ++ latin1 u.salt) ≡ u.password)
unfolding account_error
account_ok env u pw h =
    (ground arith, ground (arith, eq_iff (env.sha256_hex (pw ++ latin1 u.salt)) u.password))

account_step :
    (env : Env) (w : World) (s : ℕ) (u v : UserInfo) (pw : List ℕ) (e : Option String)
    (o : Option ℕ)
    → account_error env v pw ≡ e
    → Ban.find_player w v.id ≡ o
    → (account_result env w s v pw).0 ≡ some u
    → (v ≡ u) × (e ≡ none) × (o ≡ none) × ((account_result env w s v pw).1 ≡ w)
unfolding account_result
account_step env w s u v pw (some m) o f g h =
    (ground arith, ground arith, ground arith, ground arith)
account_step env w s u v pw none (some p) f g h =
    (ground arith, ground arith, ground arith, ground arith)
account_step env w s u v pw none none f g h = (ground arith, refl, refl, ground arith)

name_error-send_early :
    (w : World) (s : ℕ) (c : String) (b : Payload) (name : String)
    → name_error (send_early w s c b) name ≡ name_error w name
unfolding name_error Ban.check_ban_word Ban.get_config
name_error-send_early w s c b name = refl

-- What checkPassword answers when the name is in order.
abbrev queried : Env → World → ℕ → String → String → String → UserInfo × World
queried env w s name password fresh_salt =
    query_user_info env (send_early w s "InstallKey" (text "")) s name
      (drop 32 (env.decrypt password)) fresh_salt

check_password_cases :
    (env : Env) (w : World) (s : ℕ) (name password fresh_salt : String) (u : UserInfo)
    (e : Option String)
    → name_error (send_early w s "InstallKey" (text "")) name ≡ e
    → (check_password env w s name password fresh_salt).0 ≡ some u
    → (leb (length (env.decrypt password)) 32 ≡ false)
      × (e ≡ none)
      × (check_password env w s name password fresh_salt
          ≡ account_result env
              (queried env w s name password fresh_salt).1
              s
              (queried env w s name password fresh_salt).0
              (drop 32 (env.decrypt password)))
unfolding check_password
check_password_cases env w s name password fresh_salt u (some m) f h =
    (ground arith, ground arith, ground arith)
check_password_cases env w s name password fresh_salt u none f h =
    elim (Bool-cases (leb (length (env.decrypt password)) 32)) [
      | inl short ↦ (ground arith, refl, ground arith)
      | inr long ↦ (long, refl, rw (long, f, check_password))
    ]

-- checkPassword lets a new player in only with a password of more than 32 decrypted bytes, under a
-- name that is not empty, may stand in a statement and holds no banned word, with a row that is not
-- banned and whose hash is that of the password; and nobody is in the server's map under his id.
pub check_password_sound :
    (env : Env) (w : World) (s : ℕ) (name password fresh_salt : String) (u : UserInfo)
    → (check_password env w s name password fresh_salt).0 ≡ some u
    → Credentials env w name password u
      × (Ban.find_player (check_password env w s name password fresh_salt).1 u.id ≡ none)
check_password_sound env w s name password fresh_salt u h =
    let (long, named, e) = check_password_cases env w s name password fresh_salt u _ refl h in
    let (v, w₂) = queried env w s name password fresh_salt in
    let pw = drop 32 (env.decrypt password) in
    let (same, fine, absent, kept) =
      account_step env w₂ s u v pw _ _ refl refl (sym (ap (λ q. q.0) e) ∙ h) in
    let (filled, clean, decent) =
      name_ok w name (sym (name_error-send_early w s "InstallKey" (text "") name) ∙ named) in
    let (open_, right) = account_ok env v pw fine in
    (
      record {
        long_enough = long;
        named = filled;
        clean = clean;
        decent = decent;
        not_banned = sym (ap (λ x. x.banned) same) ∙ open_;
        right_password =
            sym (ap (λ x. env.sha256_hex (pw ++ latin1 x.salt)) same)
            ∙ right
            ∙ ap (λ x. x.password) same;
      },
      ap (λ q. Ban.find_player q.1 u.id) e
          ∙ ap (λ x. Ban.find_player x u.id) kept
          ∙ sym (ap (λ x. Ban.find_player w₂ x.id) same)
          ∙ absent,
    )

-- What has to hold of a valid setup string before the password is looked at.
abbrev pub passes_gate : Env → World → Json → Bool
passes_gate env w parts =
    env.compare_version (to_string (at parts 3)) == pos 0
    && (not (uuid_banned w (to_string (at parts 4))) && w.md5 == to_string (at parts 2))

-- Nobody has come or gone, and the socket is closed.
abbrev pub TurnedAway : World → ℕ → World → Type 0
TurnedAway w s w' =
    (w'.players ≡ w.players)
    × (w'.lobby_players ≡ w.lobby_players)
    × (w'.db ≡ w.db)
    × ((w'.sock s).connected ≡ false)

refuse-TurnedAway : (w : World) (s : ℕ) (c m : String) → TurnedAway w s (refuse w s c m)
unfolding refuse disconnect_from_host
refuse-TurnedAway w s c m = (refl, refl, refl, ground arith)

setup-TurnedAway :
    (env : Env) (w : World) (s : ℕ) (parts : Json) (fresh_salt : String)
    → (not (uuid_banned w (to_string (at parts 4))) && w.md5 == to_string (at parts 2)) ≡ false
    → TurnedAway w s (process_setup env w s parts fresh_salt)
unfolding process_setup disconnect_from_host
setup-TurnedAway env w s parts fresh_salt h =
    elim (Bool-cases (uuid_banned w (to_string (at parts 4)))) [
      | inl banned ↦ rw banned (refuse-TurnedAway w s "ErrorDlg" "you have been banned!")
      | inr free ↦
          let other : (w.md5 == to_string (at parts 2)) ≡ false = ground arith in
          rw (free, other) (refl, refl, refl, ground arith)
    ]

version-TurnedAway :
    (env : Env) (w : World) (s : ℕ) (parts : Json) (fresh_salt : String)
    → passes_gate env w parts ≡ false
    → let (same, w₁) = check_client_version env w s (to_string (at parts 3)) in
      TurnedAway w s (if not same then w₁ else process_setup env w₁ s parts fresh_salt)
unfolding check_client_version
version-TurnedAway env w s parts fresh_salt h =
    elim (Bool-cases (env.compare_version (to_string (at parts 3)) == pos 0)) [
      | inl fits ↦ rw fits (setup-TurnedAway env w s parts fresh_salt (ground arith))
      | inr other ↦ rw other (refuse-TurnedAway w s "ErrorDlg" _)
    ]

-- A setup string that is not valid, or one with another version, a banned UUID or another MD5, is
-- turned away: the socket is closed, and players, lobby and database are as they were.
pub process_request-TurnedAway :
    (env : Env) (w : World) (s : ℕ) (msg fresh_salt : String) (o : Option Json)
    → setup_parts env msg ≡ o
    → ((parts : Json) → o ≡ some parts → passes_gate env w parts ≡ false)
    → TurnedAway w s (process_request env w s msg fresh_salt)
unfolding process_request
process_request-TurnedAway env w s msg fresh_salt none e h =
    rw (e, process_request)
      (refuse-TurnedAway (set_timer w s false) s "ErrorDlg" "INVALID SETUP STRING")
process_request-TurnedAway env w s msg fresh_salt (some parts) e h =
    rw (e, process_request)
      (version-TurnedAway env (set_timer w s false) s parts fresh_salt (h parts refl))

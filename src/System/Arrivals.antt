-- ===== src/System/Arrivals.antt =====
-- Connections and logins (src/server/server.cpp, auth.cpp) and the console's bans and kicks
-- (shell.cpp) fill no seat.
use free_kill.Server.Ban
use free_kill.Base.{
  leb, Bool-cases, Option-cases, length, drop, ◌==◌, int_eq, nat_eq, string_eq, ℕ, String, ◌≡◌,
  refl, inl, inr, true, false, not, ◌||◌, Option, none, some, List,
}
use free_kill.Base.Int.{pos}
use free_kill.Json.{at, to_string, Json}
use free_kill.Player.{state_beq, online, robot, offline}
use free_kill.Database.{find_user, UserInfo}
use free_kill.World.{World, Env, text}
use free_kill.World.Notify.{do_notify}
use free_kill.ServerPlayer.Disconnect.{disconnect_from_host}
use free_kill.Server.Auth.{
  send_early, refuse, check_client_version, query_user_info, name_error, account_error, take_over,
  account_result, check_password,
}
use free_kill.Server.Login.{
  set_timer, connection_error, process_new_connection, setup_parts, uuid_banned, note_login, log_in,
  admit, process_setup, process_request,
}
use free_kill.System.Shrinks.{
  Shrinks-refl, Shrinks-trans, still, if-Shrinks, broadcast-Shrinks, lobby_add-Shrinks, Shrinks,
}
use free_kill.System.Leaving.{kick-Shrinks}
use free_kill.System.Sessions.{setup_player-Shrinks, reconnect-Shrinks}

disconnect-Shrinks : (w : World) (s : ℕ) → Shrinks w (disconnect_from_host w s)
unfolding disconnect_from_host
disconnect-Shrinks w s = still refl

refuse-Shrinks : (w : World) (s : ℕ) (c m : String) → Shrinks w (refuse w s c m)
unfolding refuse
refuse-Shrinks w s c m =
    let told = send_early w s c (text m) in
    let a : Shrinks w told = still refl in Shrinks-trans a (disconnect-Shrinks told s)

pub process_new_connection-Shrinks :
    (env : Env) (w : World) (s : ℕ) → Shrinks w (process_new_connection env w s)
unfolding process_new_connection
process_new_connection-Shrinks env w s =
    elim (Option-cases (connection_error w (w.sock s).peer_address)) [
      | inl e ↦ rw (e, process_new_connection) (still refl)
      | inr (m, e) ↦ rw (e, process_new_connection) (refuse-Shrinks w s "ErrorDlg" m)
    ]

take_over-Shrinks : (env : Env) (w : World) (p s : ℕ) → Shrinks w (take_over env w p s)
unfolding take_over do_notify
take_over-Shrinks env w p s =
    let state₀ = (w.player p).state in
    let told = do_notify w p "ErrorDlg" (text "others logged in again with this name") in
    let a : Shrinks w told = still refl in
    Shrinks-trans
      (if-Shrinks (state_beq state₀ online || state_beq state₀ robot)
        (Shrinks-trans a (kick-Shrinks env told p)) (Shrinks-refl w))
      (if-Shrinks (state_beq _ offline) (reconnect-Shrinks env _ p s) (refuse-Shrinks _ s _ _))

account_result-Shrinks :
    (env : Env) (w : World) (s : ℕ) (u : UserInfo) (pw : List ℕ)
    → Shrinks w (account_result env w s u pw).1
unfolding account_result
account_result-Shrinks env w s u pw = elim (Option-cases (account_error env u pw)) [
  | inr (m, e) ↦ rw (e, account_result) (refuse-Shrinks w s "ErrorDlg" m)
  | inl e ↦ elim (Option-cases (Ban.find_player w u.id)) [
    | inl f ↦ rw (e, f, account_result) (Shrinks-refl w)
    | inr (p, f) ↦ rw (e, f, account_result) (take_over-Shrinks env w p s)
  ]
]

query_user_info-Shrinks :
    (env : Env) (w : World) (s : ℕ) (name : String) (pw : List ℕ) (salt : String)
    → Shrinks w (query_user_info env w s name pw salt).1
unfolding query_user_info
query_user_info-Shrinks env w s name pw salt = elim (Option-cases (find_user w.db.userinfo name)) [
  | inl e ↦ rw (e, query_user_info) (still refl)
  | inr (u, e) ↦ rw (e, query_user_info) (Shrinks-refl w)
]

-- checkPassword behind the length of the decrypted text.
check_name-Shrinks :
    (env : Env) (w : World) (s : ℕ) (name password salt : String)
    → leb (length (env.decrypt password)) 32 ≡ false
    → Shrinks w (check_password env w s name password salt).1
unfolding check_password
check_name-Shrinks env w s name password salt long =
    let pw = drop 32 (env.decrypt password) in
    let w₁ = send_early w s "InstallKey" (text "") in
    let a : Shrinks w w₁ = still refl in
    let found = query_user_info env w₁ s name pw salt in
    elim (Option-cases (name_error w₁ name)) [
      | inr (m, e) ↦
          rw (check_password, long, e) (Shrinks-trans a (refuse-Shrinks w₁ s "ErrorDlg" m))
      | inl e ↦
          rw (check_password, long, e)
            (Shrinks-trans (Shrinks-trans a (query_user_info-Shrinks env w₁ s name pw salt))
              (account_result-Shrinks env found.1 s found.0 pw))
    ]

check_password-Shrinks :
    (env : Env) (w : World) (s : ℕ) (name password salt : String)
    → Shrinks w (check_password env w s name password salt).1
unfolding check_password
check_password-Shrinks env w s name password salt =
    elim (Bool-cases (leb (length (env.decrypt password)) 32)) [
      | inl short ↦ rw (check_password, short) (refuse-Shrinks w s "ErrorDlg" _)
      | inr long ↦ check_name-Shrinks env w s name password salt long
    ]

log_in-Shrinks :
    (w : World) (s : ℕ) (u : UserInfo) (name uuid : String) → Shrinks w (log_in w s u name uuid)
unfolding log_in note_login Ban.add_player do_notify
log_in-Shrinks w s u name uuid =
    Shrinks-trans
      (Shrinks-trans
        (Shrinks-trans
          (Shrinks-trans (still refl)
            (if-Shrinks (leb (length w.players) 10) (broadcast-Shrinks _ _ _) (Shrinks-refl _)))
          (still refl))
        (setup_player-Shrinks _ w.next_player true))
      (Shrinks-trans (still refl) (lobby_add-Shrinks _ w.next_player))

admit-Shrinks :
    (w : World) (s : ℕ) (found : Option UserInfo) (name uuid : String)
    → Shrinks w (admit w s found name uuid)
unfolding admit
admit-Shrinks w s none name uuid = Shrinks-refl w
admit-Shrinks w s (some u) name uuid = log_in-Shrinks w s u name uuid

process_setup-Shrinks :
    (env : Env) (w : World) (s : ℕ) (parts : Json) (salt : String)
    → Shrinks w (process_setup env w s parts salt)
unfolding process_setup
process_setup-Shrinks env w s parts salt =
    let name = to_string (at parts 0) in
    let found = check_password env w s name (to_string (at parts 1)) salt in
    let sent =
      send_early (send_early w s "ErrorMsg" (text "MD5 check failed!")) s "UpdatePackage"
        (text env.pack_summary) in
    let a : Shrinks w sent = still refl in
    if-Shrinks (uuid_banned w (to_string (at parts 4))) (refuse-Shrinks w s _ _) (
      if-Shrinks (not (w.md5 == to_string (at parts 2)))
        (Shrinks-trans a (disconnect-Shrinks sent s))
        (Shrinks-trans (check_password-Shrinks env w s name _ salt)
          (admit-Shrinks found.1 s found.0 name _)))

version-Shrinks :
    (env : Env) (w : World) (s : ℕ) (v : String) → Shrinks w (check_client_version env w s v).1
unfolding check_client_version
version-Shrinks env w s v = elim (Bool-cases (env.compare_version v == pos 0)) [
  | inl e ↦ rw (e, check_client_version) (Shrinks-refl w)
  | inr e ↦ rw (e, check_client_version) (refuse-Shrinks w s "ErrorDlg" _)
]

pub process_request-Shrinks :
    (env : Env) (w : World) (s : ℕ) (msg salt : String)
    → Shrinks w (process_request env w s msg salt)
unfolding process_request
process_request-Shrinks env w s msg salt =
    let w₀ = set_timer w s false in
    let a : Shrinks w w₀ = still refl in
    elim (Option-cases (setup_parts env msg)) [
      | inl e ↦ rw (e, process_request) (Shrinks-trans a (refuse-Shrinks w₀ s _ _))
      | inr (parts, e) ↦
          let checked = check_client_version env w₀ s (to_string (at parts 3)) in
          let b : Shrinks w checked.1 = Shrinks-trans a (version-Shrinks env w₀ s _) in
          rw (e, process_request)
            (if-Shrinks (not checked.0) b
              (Shrinks-trans b (process_setup-Shrinks env checked.1 s parts salt)))
    ]

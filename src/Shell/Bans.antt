-- ===== src/Shell/Bans.antt =====
-- A ban from the console (src/server/shell.cpp) against the server's gate.
use mathlib.Core.Option.{some-injective}
use free_kill.Base.{
  leb, if◌then◌else◌, Bool-cases, Option-cases, length, ◌==◌, int_eq, nat_eq, string_eq, contains,
  beq_refl, ℕ, String, ◌≡◌, refl, sym, ap, ◌∙◌, ◌≢◌, inl, inr, Bool, true, false, Option, none,
  some, List, [], ◌∷◌, ◌++◌, arith,
}
use free_kill.Shell.{kick_found, known_user, set_banned, ban_account, delete_text, ban_ip_by_name}
use free_kill.ServerPlayer.Store.{kick_keeps_db}
use free_kill.Server.Auth.{
  send_early, refuse, query_user_info, name_error, account_error, account_result, check_password,
}
use free_kill.Server.Login.{connection_error}
use free_kill.World.{World, Env, Payload, text}
use free_kill.ServerPlayer.Disconnect.{disconnect_from_host}
use free_kill.Database.{find_user, update_user, UserInfo}
use free_kill.Server.Connections.{connection_error_iff}

kick_found_keeps_db : (env : Env) (w : World) (o : Option ℕ) → (kick_found env w o).db ≡ w.db
kick_found_keeps_db env w none = refl
kick_found_keeps_db env w (some p) = kick_keeps_db env w p

known_user_found :
    (w : World) (name : String) (u : UserInfo)
    → known_user w name ≡ some u
    → find_user w.db.userinfo name ≡ some u
unfolding known_user
known_user_found w name u h = ground arith

find-update :
    (us : List UserInfo) (name : String) (u : UserInfo) (b : Bool)
    → find_user us name ≡ some u
    → find_user (update_user us u.id (λ v. record v { banned = b })) name
      ≡ some (record u { banned = b })
unfolding find_user update_user
find-update [] name u b h = ground arith
find-update (v ∷ us) name u b h = elim (Bool-cases (v.name == name)) [
  | inl e ↦
      let first : some v ≡ some u = ap (λ t. if t then some v else find_user us name) (sym e) ∙ h in
      let same : u ≡ v = sym (some-injective v u first) in rw (same, beq_refl v.id, e) refl
  | inr e ↦
      let rest = ap (λ t. if t then some v else find_user us name) (sym e) ∙ h in
      elim (Bool-cases (v.id == u.id)) [
        | inl c ↦ rw (c, e) (find-update us name u b rest)
        | inr c ↦ rw (c, e) (find-update us name u b rest)
      ]
]

-- Nobody is let in: no row is handed on, no player takes the socket, which is closed, and players,
-- their map, rooms, lobby and database are as they were.
pub record ShutOut (w : World) (s : ℕ) (r : Option UserInfo × World) : Type 0 where
  no_row : r.0 ≡ none
  same_player : r.1.player ≡ w.player
  same_players : r.1.players ≡ w.players
  same_room : r.1.room ≡ w.room
  same_lobby : r.1.lobby_players ≡ w.lobby_players
  same_db : r.1.db ≡ w.db
  closed : (r.1.sock s).connected ≡ false

refuse-ShutOut : (w : World) (s : ℕ) (c m : String) → ShutOut w s (none, refuse w s c m)
unfolding refuse disconnect_from_host
refuse-ShutOut w s c m = record {
  no_row = refl;
  same_player = refl;
  same_players = refl;
  same_room = refl;
  same_lobby = refl;
  same_db = refl;
  closed = ground arith;
}

banned_result :
    (env : Env) (w : World) (s : ℕ) (u : UserInfo) (pw : List ℕ)
    → u.banned ≡ true
    → ShutOut w s (account_result env w s u pw)
unfolding account_result account_error
banned_result env w s u pw h = rw h (refuse-ShutOut w s "ErrorDlg" "you have been banned!")

ShutOut-send_early :
    (w : World) (s : ℕ) (c : String) (b : Payload) (r : Option UserInfo × World)
    → ShutOut (send_early w s c b) s r
    → ShutOut w s r
ShutOut-send_early w s c b r h = record {
  no_row = h.no_row;
  same_player = h.same_player;
  same_players = h.same_players;
  same_room = h.same_room;
  same_lobby = h.same_lobby;
  same_db = h.same_db;
  closed = h.closed;
}

refused_password :
    (env : Env) (w : World) (s : ℕ) (name password fresh_salt : String) (u : UserInfo)
    → find_user w.db.userinfo name ≡ some u
    → u.banned ≡ true
    → ShutOut w s (check_password env w s name password fresh_salt)
unfolding check_password query_user_info
refused_password env w s name password fresh_salt u f h =
    elim (Bool-cases (leb (length (env.decrypt password)) 32)) [
      | inl short ↦ rw short (refuse-ShutOut w s "ErrorDlg" "unknown password error")
      | inr long ↦ elim (Option-cases (name_error (send_early w s "InstallKey" (text "")) name)) [
        | inl fine ↦
            rw (long, fine, f, query_user_info)
              (ShutOut-send_early w s "InstallKey" (text "") _ (banned_result env _ s u _ h))
        | inr (m, bad) ↦
            rw (long, bad)
              (ShutOut-send_early w s "InstallKey" (text "") _ (refuse-ShutOut _ s "ErrorDlg" m))
      ]
    ]

ban_account_marks :
    (env : Env) (w : World) (name : String) (u : UserInfo)
    → known_user w name ≡ some u
    → find_user (ban_account env w name true).db.userinfo name ≡ some (record u { banned = true })
unfolding ban_account set_banned
ban_account_marks env w name u h =
    rw (h, ban_account)
      (ap (λ d. find_user d.userinfo name) (kick_found_keeps_db env (set_banned w u.id true) _)
        ∙ find-update w.db.userinfo name u true (known_user_found w name u h))

-- Once the account of a name is banned, checkPassword turns everybody away who comes under that name,
-- whatever the password: the socket is closed, nobody is let in as a new player nor takes over the
-- player who is there, and players, rooms, lobby and database stay as they were.
pub ban_account_shuts_out :
    (env : Env) (w : World) (s : ℕ) (name password fresh_salt : String) (u : UserInfo)
    → known_user w name ≡ some u
    → ShutOut
        (ban_account env w name true)
        s
        (check_password env (ban_account env w name true) s name password fresh_salt)
ban_account_shuts_out env w s name password fresh_salt u h =
    refused_password env (ban_account env w name true) s name password fresh_salt
      (record u { banned = true }) (ban_account_marks env w name u h) refl

contains-append_self : (xs : List String) (a : String) → contains (xs ++ a ∷ []) a ≡ true
unfolding contains
contains-append_self [] a = ground (arith, beq_refl a)
contains-append_self (x ∷ xs) a = ground (arith, contains-append_self xs a)

contains-delete_text : (xs : List String) (a : String) → contains (delete_text xs a) a ≡ false
unfolding contains delete_text
contains-delete_text [] a = refl
contains-delete_text (x ∷ xs) a = ground (arith, contains-delete_text xs a)

ban_ip_marks :
    (env : Env) (w : World) (name : String) (u : UserInfo)
    → known_user w name ≡ some u
    → contains (ban_ip_by_name env w name true).db.banip u.last_login_ip ≡ true
unfolding ban_ip_by_name
ban_ip_marks env w name u h =
    rw (h, ban_ip_by_name)
      (ap (λ d. contains d.banip u.last_login_ip) (kick_found_keeps_db env _ _)
        ∙ contains-append_self w.db.banip u.last_login_ip)

-- Once the address of a name is banned, no connection from the address of the last login under that
-- name is let in.
pub ban_ip_shuts_out :
    (env : Env) (w : World) (name : String) (u : UserInfo)
    → known_user w name ≡ some u
    → connection_error (ban_ip_by_name env w name true) u.last_login_ip ≢ none
ban_ip_shuts_out env w name u h = λ fine.
    let listed = ban_ip_marks env w name u h in
    let free = ((connection_error_iff (ban_ip_by_name env w name true) u.last_login_ip).0 fine).0 in
    cc

-- When the address of a name is unbanned, the address of the last login under that name is not
-- banned any more, however often it was.
ban_ip_lifts :
    (env : Env) (w : World) (name : String) (u : UserInfo)
    → known_user w name ≡ some u
    → contains (ban_ip_by_name env w name false).db.banip u.last_login_ip ≡ false
unfolding ban_ip_by_name
ban_ip_lifts env w name u h =
    rw (h, ban_ip_by_name) (contains-delete_text w.db.banip u.last_login_ip)

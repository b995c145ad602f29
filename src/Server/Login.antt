-- ===== src/Server/Login.antt =====
-- From a connection to a player: Server::processNewConnection and processRequest
-- (src/server/server.cpp).
use free_kill.Server.Ban
use free_kill.Lobby.Members
use free_kill.Server.Auth.{send_early, refuse, check_client_version, check_password}
use free_kill.Base.{
  leb, if◌then◌else◌, length, ◌==◌, int_eq, nat_eq, string_eq, contains, ℕ, String, Bool, true,
  false, not, ◌&&◌, Option, none, some, List, [], ◌∷◌,
}
use free_kill.Base.Int.{leb_ℤ, ℤ, pos, negsuc}
use free_kill.Json.{array, at, array_size, is_array, to_int, to_string, as_array, Json, num, str}
use free_kill.Player.{add_total_game_time}
use free_kill.Database.{update_user, find_column, UserInfo}
use free_kill.SqlText.{check_string}
use free_kill.World.{update, set_base, ServerPlayer, World, Env, lobby, text, json}
use free_kill.World.Notify.{do_notify, broadcast}
use free_kill.Room.Joining.{new_server_player, create}
use free_kill.ServerPlayer.Disconnect.{disconnect_from_host}
use free_kill.Server.Rooms.{setup_player}

abbrev pub set_timer : World → ℕ → Bool → World
set_timer w s on = record w { sock = update w.sock s (record (w.sock s) { signup_timer = on }) }

-- The reason to refuse a new connection, if there is one.
unfoldable pub connection_error : World → String → Option String
connection_error w addr =
    if contains w.db.banip addr
    then some "you have been banned!"
    else if contains w.temp_banlist addr
    then some "you have been temporarily banned!"
    else if leb_ℤ (to_int (Ban.get_config w "capacity")) (pos (length w.players))
    then some "server is full!"
    else none

unfoldable pub process_new_connection : Env → World → ℕ → World
process_new_connection env w s = elim (connection_error w (w.sock s).peer_address) [
  | some m ↦ refuse w s "ErrorDlg" m
  | none ↦ set_timer (send_early w s "NetworkDelayTest" (text env.public_key)) s true
]

-- doc[i] == n and doc[i] == "text" of QJsonValue
abbrev int_is : Json → ℤ → Bool
int_is (num m) n = m == n
int_is _ n = false

abbrev text_is : Json → String → Bool
text_is (str t) s = t == s
text_is _ s = false

-- The five parts of the setup string: name, password, MD5, version, UUID; none if it is not valid.
unfoldable pub setup_parts : Env → String → Option Json
setup_parts env msg = elim (env.from_json msg) [
  | none ↦ none
  | some doc ↦
      let parts = as_array (env.from_json (to_string (at doc 3))) in
      if is_array doc
        && (array_size doc == 4
            && (int_is (at doc 0) (negsuc 1)
                && (int_is (at doc 1) (pos 0x412)
                    && (text_is (at doc 2) "Setup" && array_size parts == 5))))
      then some parts
      else none
]

-- A UUID that may not stand in a statement counts as banned.
abbrev pub uuid_banned : World → String → Bool
uuid_banned w uuid = if check_string uuid then contains w.db.banuuid uuid else true

-- REPLACE INTO uuidinfo
abbrev put_uuid : List (ℤ × String) → ℤ → String → List (ℤ × String)
put_uuid [] i u = (i, u) ∷ []
put_uuid ((j, v) ∷ m) i u = if j == i then (i, u) ∷ m else (j, v) ∷ put_uuid m i u

-- INSERT OR IGNORE INTO usergameinfo
abbrev with_row : List (ℤ × ℕ) → ℤ → List (ℤ × ℕ)
with_row [] i = (i, 0) ∷ []
with_row ((j, n) ∷ rows) i = if j == i then (j, n) ∷ rows else (j, n) ∷ with_row rows i

unfoldable pub note_login : World → ℕ → ℤ → String → World
note_login w s i uuid = record w {
  db = record w.db {
    userinfo =
        update_user w.db.userinfo i (λ u. record u { last_login_ip = (w.sock s).peer_address });
    uuidinfo = put_uuid w.db.uuidinfo i uuid;
    game_time = with_row w.db.game_time i;
  };
}

abbrev played : Option ℕ → ℕ
played none = 0
played (some n) = n

-- The end of processRequest: the new player is made, announced, set up and sent to the lobby.
unfoldable pub log_in : World → ℕ → UserInfo → String → String → World
log_in w s u name uuid =
    let w₁ = note_login w s u.id uuid in
    let p = w₁.next_player in
    let v = new_server_player lobby in
    let v₁ : ServerPlayer = record v {
      base = record v.base { screen_name = name; avatar = u.avatar; id = u.id };
      socket = some s;
      uuid = uuid;
    } in
    let w₂ = create w₁ v₁ in
    let w₃ =
      if leb (length w₂.players) 10
      then broadcast w₂ "ServerMessage" (json (array (str "%1 logged in" ∷ str name ∷ [])))
      else w₂ in
    let w₄ = setup_player (Ban.add_player w₃ p) p true in
    let t = played (find_column w₄.db.game_time u.id) in
    let w₅ = set_base w₄ p (add_total_game_time (w₄.player p).base t) in
    Members.add_player
      (do_notify w₅ p "AddTotalGameTime" (json (array (num u.id ∷ num (pos t) ∷ [])))) p

unfoldable pub admit : World → ℕ → Option UserInfo → String → String → World
admit w s none name uuid = w
admit w s (some u) name uuid = log_in w s u name uuid

-- processRequest once the version fits: the UUID, the MD5, the password
unfoldable pub process_setup : Env → World → ℕ → Json → String → World
process_setup env w s parts fresh_salt =
    let uuid = to_string (at parts 4) in
    if uuid_banned w uuid
    then refuse w s "ErrorDlg" "you have been banned!"
    else if not (w.md5 == to_string (at parts 2))
    then disconnect_from_host
        (send_early (send_early w s "ErrorMsg" (text "MD5 check failed!")) s "UpdatePackage"
          (text env.pack_summary))
        s
    else (let name = to_string (at parts 0) in
        let (found, w₁) = check_password env w s name (to_string (at parts 1)) fresh_salt in
        admit w₁ s found name uuid)

unfoldable pub process_request : Env → World → ℕ → String → String → World
process_request env w s msg fresh_salt =
    let w₀ = set_timer w s false in
    elim (setup_parts env msg) [
      | none ↦ refuse w₀ s "ErrorDlg" "INVALID SETUP STRING"
      | some parts ↦
          let (same, w₁) = check_client_version env w₀ s (to_string (at parts 3)) in
          if not same then w₁ else process_setup env w₁ s parts fresh_salt
    ]

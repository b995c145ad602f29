-- ===== src/Server/Connections.antt =====
-- Who may connect: the refusals of Server::processNewConnection (src/server/server.cpp).
use free_kill.Server.Ban
use free_kill.Base.{
  Bool-cases, length, int_eq, nat_eq, string_eq, contains, count, contains-last, count-append,
  count-remove_one, ℕ, String, ◌≡◌, ◌↔◌, inl, inr, false, none, some, [], ◌∷◌, ◌++◌, arith,
}
use free_kill.Base.Int.{leb_ℤ, pos}
use free_kill.Json.{to_int}
use free_kill.World.{World, Env, unban}
use free_kill.Server.Auth.{refuse}
use free_kill.Server.Login.{connection_error, process_new_connection}
use free_kill.ServerPlayer.Disconnect.{disconnect_from_host}

-- A new connection is let in exactly when its address is not banned, not banned for a while, and the
-- server's map of players is smaller than its capacity.
pub connection_error_iff :
    (w : World) (addr : String)
    → (connection_error w addr ≡ none) ↔ (
        (contains w.db.banip addr ≡ false)
        × (contains w.temp_banlist addr ≡ false)
        × (leb_ℤ (to_int (Ban.get_config w "capacity")) (pos (length w.players)) ≡ false))
unfolding connection_error
connection_error_iff w addr = (λ h. (ground arith, ground arith, ground arith), λ h. ground arith)

-- The socket of a refused connection is closed.
refuse-closed : (w : World) (s : ℕ) (c m : String) → ((refuse w s c m).sock s).connected ≡ false
unfolding refuse disconnect_from_host
refuse-closed w s c m = ground arith

refused_for :
    (env : Env) (w : World) (s : ℕ) (m : String)
    → connection_error w (w.sock s).peer_address ≡ some m
    → ((process_new_connection env w s).sock s).connected ≡ false
unfolding process_new_connection
refused_for env w s m e = rw (e, process_new_connection) (refuse-closed w s "ErrorDlg" m)

banned_error :
    (w : World) (addr : String)
    → (m : String) × (connection_error (Ban.ban_address w addr) addr ≡ some m)
unfolding connection_error Ban.ban_address
banned_error w addr = elim (Bool-cases (contains w.db.banip addr)) [
  | inl old ↦ ("you have been banned!", rw old)
  | inr new ↦ ("you have been temporarily banned!", rw (new, contains-last w.temp_banlist addr))
]

-- A temporary ban shuts out every connection from the address.
pub ban_shuts_out :
    (env : Env) (w : World) (s : ℕ)
    → ((process_new_connection env (Ban.ban_address w (w.sock s).peer_address) s).sock s).connected
      ≡ false
unfolding Ban.ban_address
ban_shuts_out env w s =
    let (m, e) = banned_error w (w.sock s).peer_address in
    refused_for env (Ban.ban_address w (w.sock s).peer_address) s m e

-- When its timer fires, the list holds every address as often as before the ban.
pub ban_ends :
    (w : World) (addr other : String)
    → count other (Ban.fire (Ban.ban_address w addr) (unban addr)).temp_banlist
      ≡ count other w.temp_banlist
unfolding Ban.fire Ban.ban_address
ban_ends w addr other = ground (
  arith,
  count-remove_one (w.temp_banlist ++ addr ∷ []) addr other,
  count-append other w.temp_banlist (addr ∷ []),
)

-- ===== src/Client.antt =====
-- src/client/client.cpp: what the client knows of players and of the server, its requests' answers
-- and notifications, and the setup packet with the password; Records are the saved games. The calls
-- of Lua and the file watcher are left out.
pub mod Players
pub mod Login
pub mod Records
pub mod Kept
pub mod Blobs
use free_kill.Router
use free_kill.ClientSocket.{Bytes, zeros}
use free_kill.Base.{
  ltb, leb, if◌then◌else◌, length, take, ◌==◌, int_eq, nat_eq, ℕ, suc, ◌+◌, ◌-◌, ◌/◌, String, Bool,
  true, Option, none, some, List, [], ◌∷◌, ◌++◌,
}
use free_kill.Base.Int.{ℤ, pos, negsuc}
use free_kill.Json.{array, Json, str}
use free_kill.Player.{Player, new_player}

-- Qt, OpenSSL, the build and the machine.
pub record ClientEnv : Type 0 where
  pub to_utf8 : String → Bytes
  pub size : String → ℕ  -- QString::length, in UTF-16 units
  pub hex : ℕ → Bytes  -- QByteArray::number(x, 16)
  pub encrypt : String → Bytes → String  -- RSA_public_encrypt with a PEM key, then base64
  pub rsa_limit : String → ℕ  -- RSA_size of the key less the 11 bytes of the padding
  pub leftover : String → String  -- what stands in `buf` when nothing was encrypted, in base64
  pub to_text : Json → String  -- JsonArray2Bytes
  pub file_md5 : String  -- calcFileMD5
  pub version : String  -- FK_VERSION
  pub device_uuid : String  -- GetDeviceUuid

-- `players` is a QMap from ids to pointers, which may be null; `player` holds the objects by address.
pub record Client : Type 0 where
  pub player : ℕ → Player
  pub next_player : ℕ
  pub self : ℕ
  pub players : List (ℤ × Option ℕ)
  pub router : Router.Router
  pub aes_key : Bytes
  pub screen_name : String
  pub password : String
  pub start_connect_timestamp : ℕ
  pub server_lag : ℤ
  pub deleted : List ℕ  -- players given to deleteLater
  pub faulted : Bool

-- `players[id]` of a QMap: a missing key reads as null.
unfoldable pub value : List (ℤ × Option ℕ) → ℤ → Option ℕ
value [] i = none
value ((j, p) ∷ m) i = let rest = value m i in if j == i then p else rest

-- `players[id] = p`
pub assign : List (ℤ × Option ℕ) → ℤ → Option ℕ → List (ℤ × Option ℕ)
assign [] i p = (i, p) ∷ []
assign ((j, q) ∷ m) i p = let rest = assign m i p in if j == i then (i, p) ∷ m else (j, q) ∷ rest

unfoldable pub add_player : Client → ℤ → String → String → Client
add_player c i name avatar =
    let p = c.next_player in
    record c {
      player = λ q.
          if p == q
          then record new_player { id = i; screen_name = name; avatar = avatar }
          else c.player q;
      next_player = suc p;
      players = assign c.players i (some p);
    }

-- A missing player is a null pointer that the source calls.
unfoldable pub remove_player : Client → ℤ → Client
remove_player c i = elim (value c.players i) [
  | none ↦ record c { players = assign c.players i none; faulted = true }
  | some p ↦ record c { players = assign c.players i none; deleted = c.deleted ++ p ∷ [] }
]

pub clear_players : Client → Client
clear_players c = record c { players = [] }

abbrev or_else : Option ℕ → ℕ → ℕ
or_else none d = d
or_else (some p) d = p

-- The look-up leaves a null entry for a missing id. The signal self_changed is for the user
-- interface.
pub change_self : Client → ℤ → Client
change_self c i =
    let p = value c.players i in
    record c { players = assign c.players i p; self = or_else p c.self }

set_login_info : Client → String → String → Client
set_login_info c username password = record c { screen_name = username; password = password }

connect_to_host : Client → ℕ → Client
connect_to_host c now = record c { start_connect_timestamp = now }

-- m - n
abbrev difference : ℕ → ℕ → ℤ
difference m n = if ltb m n then negsuc (n - m - 1) else pos (m - n)

-- With the clock not set back since connectToHost.
setup_server_lag : Client → ℕ → ℕ → Client
setup_server_lag c now server_time =
    let ping = now - c.start_connect_timestamp in
    record c { server_lag = difference now (server_time + ping / 2) }

-- TYPE_REPLY | SRC_CLIENT | DEST_SERVER
reply_to_server : Client → String → String → Client
reply_to_server c command json_data = record c {
  router = Router.reply c.router (pos 0x212) command json_data;
}

-- TYPE_NOTIFICATION | SRC_CLIENT | DEST_SERVER
pub notify_server : Client → String → String → Client
notify_server c command json_data = record c {
  router = Router.notify c.router (pos 0x412) command json_data;
}

-- Two random numbers in hexadecimal, filled up with "0" to 32 characters.
pub key_text : ClientEnv → ℕ → ℕ → Bytes
key_text env a b =
    let k = env.hex a ++ env.hex b in if ltb (length k) 32 then k ++ zeros (32 - length k) else k

-- pubEncrypt, with the two random numbers: so many bytes of the key and the data are encrypted as
-- the data has UTF-16 units, and 32. RSA_public_encrypt fails on more than the limit, which is not
-- looked at: `buf` is sent as it is.
unfoldable pub pub_encrypt : ClientEnv → Client → ℕ → ℕ → String → String → String × Client
pub_encrypt env c a b key text =
    let aes = key_text env a b in
    (
      if leb (env.size text + 32) (env.rsa_limit key)
          then env.encrypt key (take (env.size text + 32) (aes ++ env.to_utf8 text))
          else env.leftover key,
      record c { aes_key = aes },
    )

abbrev pub setup_fields : ClientEnv → Client → String → Json
setup_fields env c cipher =
    array (
      str c.screen_name
      ∷ str cipher
      ∷ str env.file_md5
      ∷ str env.version
      ∷ str env.device_uuid
      ∷ [])

pub send_setup_packet : ClientEnv → Client → ℕ → ℕ → String → Client
send_setup_packet env c a b pubkey =
    let (cipher, c₁) = pub_encrypt env c a b pubkey c.password in
    notify_server c₁ "Setup" (env.to_text (setup_fields env c₁ cipher))

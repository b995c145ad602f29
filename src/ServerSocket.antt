-- ===== src/ServerSocket.antt =====
-- The server's answers to those who look for servers: ServerSocket::processDatagram
-- (src/network/server_socket.cpp). The sockets themselves are Qt.
use free_kill.Server.Ban
use free_kill.Base.{
  ℕ, String, Bool, true, false, Option, none, some, [], ◌∷◌, ◌==◌, nat_eq, string_eq, drop, length,
  if◌then◌else◌, ◌&&◌,
}
use free_kill.Base.Int.{pos}
use free_kill.ClientSocket.{Bytes}
use free_kill.Json.{Json, array, num, str}
use free_kill.World.{World}
use Prim.Native.Char.{code}

pub record Datagram : Type 0 where
  pub content : Bytes
  pub address : String
  pub port : ℕ

-- The bytes of a text in ASCII
abbrev pub ascii : String → Bytes
ascii String.[] = []
ascii (String.◌∷◌ c s) = code c ∷ ascii s

-- QByteArray::operator==
abbrev pub same_bytes : Bytes → Bytes → Bool
same_bytes [] [] = true
same_bytes (a ∷ cs) (b ∷ bs) = a == b && same_bytes cs bs
same_bytes _ _ = false

-- QByteArray::startsWith
abbrev pub starts_with : Bytes → Bytes → Bool
starts_with bs [] = true
starts_with [] (a ∷ cs) = false
starts_with (b ∷ bs) (a ∷ cs) = b == a && starts_with bs cs

-- What constData() shows: the bytes before the first NUL
pub c_string : Bytes → Bytes
c_string [] = []
c_string (b ∷ bs) = if b == 0 then [] else b ∷ c_string bs

pub record SocketEnv : Type 0 where
  pub version : String  -- FK_VERSION
  pub from_utf8 : Bytes → String
  pub print_json : Json → Bytes  -- JsonArray2Bytes

-- The answer to "fkGetDetail,...": the server's card, and what was asked for
unfoldable pub details : SocketEnv → World → Bytes → Json
details env w asked = array (
    str env.version
    ∷ Ban.get_config w "iconUrl"
    ∷ Ban.get_config w "description"
    ∷ Ban.get_config w "capacity"
    ∷ num (pos (length w.players))
    ∷ str (env.from_utf8 (c_string asked))
    ∷ [])

-- processDatagram: what is written back to the sender, if anything
unfoldable pub process_datagram : SocketEnv → World → Bytes → Option Bytes
process_datagram env w msg =
    if same_bytes msg (ascii "fkDetectServer")
    then some (ascii "me")
    else if starts_with msg (ascii "fkGetDetail,")
    then some (env.print_json (details env w (drop 12 msg)))
    else none

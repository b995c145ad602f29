-- ===== src/ClientSocket.antt =====
-- src/network/client_socket.cpp: messages as lines, long ones compressed, all of them encrypted once
-- a key is installed. Bytes are numbers; compression, base64, hexadecimal text and AES are a
-- parameter.
pub mod RoundTrip
use free_kill.Base.{
  ltb, leb, if◌then◌else◌, length, drop, take, ◌==◌, nat_eq, string_eq, int_eq, ℕ, zero, suc, ◌-◌,
  String, Bool, true, false, not, ◌&&◌, Option, none, some, List, [], ◌∷◌, ◌++◌, map,
}

abbrev pub Bytes : Type 0
Bytes = List ℕ

pub record Codec : Type 0 where
  pub compress : Bytes → Bytes  -- qCompress
  pub uncompress : Bytes → Bytes
  pub to_base64 : Bytes → Bytes
  pub from_base64 : Bytes → Bytes
  pub hex : ℕ → Bytes  -- QByteArray::number(x, 16)
  pub from_hex : Bytes → Bytes
  pub cfb_encrypt : Bytes → Bytes → Bytes → Bytes  -- key, iv, data
  pub cfb_decrypt : Bytes → Bytes → Bytes → Bytes
  pub simplified : Bytes → Bytes

-- The fields `aes_ready` and `aes_key` are one option.
pub record ClientSocket : Type 0 where
  pub connected : Bool
  pub key : Option Bytes

abbrev pub newline : Bytes
newline = 10 ∷ []

-- "Compressed"
abbrev pub mark : Bytes
mark = 67 ∷ 111 ∷ 109 ∷ 112 ∷ 114 ∷ 101 ∷ 115 ∷ 115 ∷ 101 ∷ 100 ∷ []

-- startsWith
unfoldable pub starts_with : Bytes → Bytes → Bool
starts_with xs [] = true
starts_with [] (p ∷ ps) = false
starts_with (x ∷ xs) (p ∷ ps) = x == p && starts_with xs ps

abbrev pub zeros : ℕ → Bytes
zeros zero = []
zeros (suc n) = 48 ∷ zeros n

-- The text of an initial vector: two random numbers, filled up with "0" to 32 characters.
pub iv_text : Codec → ℕ → ℕ → Bytes
iv_text c a b =
    let iv = c.hex a ++ c.hex b in if ltb (length iv) 32 then iv ++ zeros (32 - length iv) else iv

-- strncpy of 16 bytes: what follows a NUL is NUL.
pub copy_iv : ℕ → Bytes → Bytes
copy_iv zero bs = []
copy_iv (suc n) [] = 0 ∷ copy_iv n []
copy_iv (suc n) (b ∷ bs) = b ∷ copy_iv n (if b == 0 then [] else bs)

abbrev pub iv_bytes : Codec → Bytes → Bytes
iv_bytes c iv = copy_iv 16 (c.from_hex iv)

-- aesEnc, with the two random numbers
pub aes_enc : Codec → Option Bytes → ℕ → ℕ → Bytes → Bytes
unfolding iv_text copy_iv
aes_enc c none a b msg = msg
aes_enc c (some key) a b msg =
    let iv = iv_text c a b in iv ++ c.to_base64 (c.cfb_encrypt key (iv_bytes c iv) msg)

-- aesDec
pub aes_dec : Codec → Option Bytes → Bytes → Bytes
unfolding copy_iv
aes_dec c none msg = msg
aes_dec c (some key) msg =
    c.cfb_decrypt key (iv_bytes c (take 32 msg)) (c.from_base64 (drop 32 msg))

-- send: the line that is written; none if the socket is not connected
pub send : Codec → ClientSocket → ℕ → ℕ → Bytes → Option Bytes
send c s a b msg =
    if not s.connected
    then none
    else if leb 1024 (length msg)
    then some (aes_enc c s.key a b (mark ++ c.to_base64 (c.compress msg)) ++ newline)
    else some (aes_enc c s.key a b msg ++ newline)

-- One round of getMessage: the message that a line brings, which readLine has read.
pub read_message : Codec → ClientSocket → Bytes → Bytes
read_message c s line =
    let msg = aes_dec c s.key line in
    c.simplified (if starts_with msg mark then c.uncompress (c.from_base64 (drop 10 msg)) else msg)

-- canReadLine and readLine: the lines that have come in whole, each with its newline, after what has
-- come of the first
unfoldable pub whole_lines : Bytes → Bytes → List Bytes
whole_lines before [] = []
whole_lines before (b ∷ bs) = elim (b == 10) [
  | true ↦ (before ++ newline) ∷ whole_lines [] bs
  | false ↦ whole_lines (before ++ b ∷ []) bs
]

-- getMessage: the messages of the bytes that have come in; no slot of message_got changes the key
unfoldable pub get_message : Codec → ClientSocket → Bytes → List Bytes
unfolding whole_lines
get_message c s bytes = map (read_message c s) (whole_lines [] bytes)

install_aes_key : Codec → ClientSocket → Bytes → ClientSocket
install_aes_key c s key =
    if not (length key == 32)
    then s
    else if not (length (c.from_hex key) == 16)
    then s
    else record s { key = some (c.from_hex key) }

remove_aes_key : ClientSocket → ClientSocket
remove_aes_key s = record s { key = none }

pub disconnect_from_host : ClientSocket → ClientSocket
disconnect_from_host s = record s { connected = false; key = none }

-- QAbstractSocket::SocketError, as far as raiseError names it
pub data SocketError : Type 0 where
  connection_refused remote_host_closed host_not_found socket_access socket_resource : SocketError
  socket_timeout datagram_too_large network unsupported_operation unfinished_operation : SocketError
  proxy_authentication proxy_refused proxy_closed proxy_timeout proxy_protocol : SocketError
  operation temporary other : SocketError

-- raiseError: the reason that the user is told
pub reason : SocketError → String
reason connection_refused = "Connection was refused or timeout"
reason remote_host_closed = "Remote host close this connection"
reason host_not_found = "Host not found"
reason socket_access = "Socket access error"
reason socket_resource = "Socket resource error"
reason socket_timeout = "Socket timeout error"
reason datagram_too_large = "Datagram too large error"
reason network = "Network error"
reason unsupported_operation = "Unsupprted socket operation"
reason unfinished_operation = "Unfinished socket operation"
reason proxy_authentication = "Proxy auth error"
reason proxy_refused = "Proxy refused"
reason proxy_closed = "Proxy closed"
reason proxy_timeout = "Proxy timeout"
reason proxy_protocol = "Proxy protocol error"
reason operation = "Operation error"
reason temporary = "Temporary error"
reason other = "Unknown error"

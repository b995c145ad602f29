-- ===== src/Backend/Discovery.antt =====
-- A search for a server and its answer: getServerInfo and readPendingDatagrams
-- (src/ui/qmlbackend.cpp) against processDatagram (src/network/server_socket.cpp).
use free_kill.Base.{if◌then◌else◌, ℕ, String, ◌≡◌, false, Option, none, some, List, [], ◌∷◌, ◌++◌}
use free_kill.Json.{Json}
use free_kill.World.{World}
use free_kill.ServerSocket.{ascii, same_bytes, details, process_datagram, Datagram, SocketEnv}
use free_kill.Backend.{
  read_datagram, Lookup, BackendEnv, UiNote, found, not_found, other_error, get_server_detail,
}
use free_kill.ClientSocket.{Bytes}

-- What the text of a JSON array is relied on for: it is read as it was written, and is not "me".
pub record ArrayText (env : BackendEnv) (senv : SocketEnv) (doc : Json) : Type 0 where
  pub parse-print : env.parse (senv.print_json doc) ≡ some doc
  pub not_me : same_bytes (senv.print_json doc) (ascii "me") ≡ false

-- What the client is told once the server has answered a datagram.
abbrev pub told : BackendEnv → String → Option Bytes → Option UiNote
told env sender none = none
told env sender (some answer) = some (read_datagram env answer sender)

-- What the name services say of an address and a port: the address itself if it is one, else the
-- address of the host; if no host has the name, which is then no IPv6 address, the host and the port of
-- its SRV record.
abbrev host_of : Lookup → ℕ → Option (String × ℕ)
host_of (found a) p = some (a, p)
host_of not_found p = none
host_of other_error p = none

abbrev service_of : BackendEnv → Option (String × ℕ) → Option (String × ℕ)
service_of env none = none
service_of env (some (target, p)) = host_of (env.lookup_host target) p

abbrev named_host : BackendEnv → String → ℕ → Lookup → Option (String × ℕ)
named_host env address port (found a) = some (a, port)
named_host env address port not_found =
    if env.has_colon address then none else service_of env (env.lookup_srv address)
named_host env address port other_error = none

abbrev pub destination : BackendEnv → String → ℕ → Option (String × ℕ)
destination env address port =
    if env.is_address address
    then some (address, port)
    else named_host env address port (env.lookup_host address)

-- Nothing is sent if there is nowhere to send it; else one datagram goes there, and the server's
-- answer to it makes the client tell the user interface `note`.
abbrev pub Answered :
    BackendEnv → SocketEnv → World → UiNote → Option (String × ℕ) → List Datagram → Type 0
Answered env senv w note none ds = ds ≡ []
Answered env senv w note (some (a, p)) ds =
    (d : Datagram) × (ds ≡ d ∷ [])
    × (d.address ≡ a)
    × (d.port ≡ p)
    × (told env a (process_datagram senv w d.content) ≡ some note)

module _ (env : BackendEnv) (senv : SocketEnv) (w : World) (address : String) (port : ℕ) where
  -- What the user asked for, as the server reads it
  abbrev pub asked : Bytes
  asked = env.to_latin1 address ++ env.print_port port

  abbrev pub card : UiNote
  card = get_server_detail (env.print_json (details senv w asked))

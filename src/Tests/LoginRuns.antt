-- ===== src/Tests/LoginRuns.antt =====
-- A login between a client and a server that agree on how to encrypt and to print.
use free_kill.Client.{
  ClientEnv, Client, pub_encrypt, setup_fields, send_setup_packet, value, add_player, remove_player,
  clear_players, change_self,
}
use free_kill.Client.Login.{Ends, Parsed, send_setup_packet-setup_parts}
use free_kill.Client.Players.{AllMade, table, set, players-table}
use free_kill.ClientSocket.{Bytes}
use free_kill.Router
use free_kill.Router.{message_ready}
use free_kill.Server.Login.{setup_parts}
use free_kill.SqlText.{codes}
use free_kill.Player.{new_player}
use free_kill.World.{Env}
use free_kill.Tests.Data.{env₀}
use free_kill.Json.{Json, array, num, str, at, to_string}
use free_kill.Base.{
  if◌then◌else◌, length, take, drop, ◌==◌, nat_eq, int_eq, string_eq, contains, ℕ, zero, suc, ◌+◌,
  String, ◌≡◌, refl, ap, ◌∙◌, false, Option, none, some, [], ◌∷◌, arith,
}
use free_kill.Base.Int.{pos, negsuc}
use Prim.Native.Char.{code}

-- A byte n is n times "1" and a "0".
abbrev ones : ℕ → String → String
ones zero s = String.◌∷◌ "0" s
ones (suc n) s = String.◌∷◌ "1" (ones n s)

abbrev encode : Bytes → String
encode [] = ""
encode (b ∷ bs) = ones b (encode bs)

abbrev decode : ℕ → String → Bytes
decode n String.[] = []
decode n (String.◌∷◌ c s) = if code c == 48 then n ∷ decode 0 s else decode (suc n) s

decode-ones : (b n : ℕ) (s : String) → decode n (ones b s) ≡ (n + b) ∷ decode 0 s
decode-ones zero n s = ap (λ m. m ∷ decode 0 s) (omega arith)
decode-ones (suc b) n s = decode-ones b (suc n) s ∙ ap (λ m. m ∷ decode 0 s) (omega arith)

decode-encode : (m : Bytes) → decode 0 (encode m) ≡ m
decode-encode [] = refl
decode-encode (b ∷ bs) =
    decode-ones b 0 (encode bs)
    ∙ ap (λ m. m ∷ decode 0 (encode bs)) (omega arith)
    ∙ ap (◌∷◌ b) (decode-encode bs)

abbrev print : Json → String
print j = if to_string (at j 0) == "" then "setup" else "parts"

abbrev client_env : ClientEnv
client_env = record {
  to_utf8 = codes;
  size = λ s. length (codes s);
  hex = λ n. 49 ∷ [];
  encrypt = λ key m. encode m;
  rsa_limit = λ key. 245;
  leftover = λ key. "";
  to_text = print;
  file_md5 = "m";
  version = "new";
  device_uuid = "u";
}

abbrev cai_client : Client
cai_client = record {
  player = λ p. new_player;
  next_player = 1;
  self = 0;
  players = [];
  router = Router.init none;
  aes_key = [];
  screen_name = "Cai";
  password = "pw";
  start_connect_timestamp = 0;
  server_lag = pos 0;
  deleted = [];
  faulted = false;
}

abbrev cipher₀ : String
cipher₀ = (pub_encrypt client_env cai_client 1 2 "k" "pw").0

abbrev fields₀ : Json
fields₀ = setup_fields client_env cai_client cipher₀

abbrev message₀ : Json
message₀ = array (num (negsuc 1) ∷ num (pos 0x412) ∷ str "Setup" ∷ str (print fields₀) ∷ [])

abbrev parse₂ : String → Option Json
parse₂ s = if s == "setup" then some message₀ else some fields₀

abbrev env₂ : Env
env₂ = record env₀ { from_json = parse₂; decrypt = decode 0 }

ends₂ : Ends client_env env₂
unfolding contains
ends₂ = record {
  decrypts = λ m h room. decode-encode m;
  length-hex = λ n. omega arith;
  no_nul_in_hex = λ n. refl;
}

parsed₂ : Parsed client_env env₂ ends₂ 1 2 cai_client
unfolding pub_encrypt
parsed₂ = record { message = refl; fields = refl }

send_setup_packet-setup_parts_example :
    let k' = send_setup_packet client_env cai_client 1 2 "k" in
    let told = env₂.decrypt cipher₀ in
    (k'.router.emitted ≡ message_ready message₀ ∷ [])
    × (setup_parts env₂ (print message₀) ≡ some fields₀)
    × (take 32 told ≡ k'.aes_key)
    × (drop 32 told ≡ take 2 (codes "pw"))
unfolding pub_encrypt contains Router.init Router.set_socket
send_setup_packet-setup_parts_example =
    send_setup_packet-setup_parts client_env env₂ ends₂ 1 2 cai_client parsed₂ refl refl

players-table_example :
    (table (add_player cai_client (pos 3) "Bo" "lvbu")
      ≡ set
          (table cai_client)
          (pos 3)
          (some (record new_player { id = pos 3; screen_name = "Bo"; avatar = "lvbu" })))
    × (table (remove_player cai_client (pos 3)) ≡ set (table cai_client) (pos 3) none)
    × (table (clear_players cai_client) ≡ (λ j. none))
    × (table (change_self cai_client (pos 3)) ≡ table cai_client)
    × AllMade (add_player cai_client (pos 3) "Bo" "lvbu")
unfolding value
players-table_example = players-table cai_client (pos 3) "Bo" "lvbu" (λ i p h. ground arith)

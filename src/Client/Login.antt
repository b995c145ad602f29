-- ===== src/Client/Login.antt =====
-- The setup packet of src/client/client.cpp as src/server/server.cpp and auth.cpp read it.
use free_kill.Router.{message_ready}
use free_kill.Router
use free_kill.ClientSocket.{Bytes, zeros}
use free_kill.ClientSocket.RoundTrip.{length-zeros, take-append, drop-append}
use free_kill.Client.{
  ClientEnv, Client, key_text, pub_encrypt, notify_server, setup_fields, send_setup_packet,
}
use free_kill.Server.Login.{setup_parts}
use free_kill.World.{Env}
use free_kill.Json.{array, num, str, Json}
use free_kill.Base.Int.{pos, negsuc}
use free_kill.Base.{
  leb, length, take, drop, contains, contains-append, length-append, ap, ℕ, zero, suc, ◌∙◌, ◌+◌,
  ◌-◌, ◌≤◌, String, ◌≡◌, string_eq, refl, true, false, some, [], ◌∷◌, ◌++◌, arith, nat_eq,
}

-- What the two ends rely on: decryption undoes encryption up to a NUL, so that texts without one
-- come back if they are not longer than the padding leaves room for; a 64 bit number has at most 16 hexadecimal digits, none of them NUL.
pub record Ends (c : ClientEnv) (env : Env) : Type 0 where
  pub decrypts :
      (m : Bytes)
      → contains m 0 ≡ false
      → leb (length m) (c.rsa_limit env.public_key) ≡ true
      → env.decrypt (c.encrypt env.public_key m) ≡ m
  pub length-hex : (n : ℕ) → length (c.hex n) ≤ 16
  pub no_nul_in_hex : (n : ℕ) → contains (c.hex n) 0 ≡ false

length-key_text :
    (c : ClientEnv) (a b : ℕ)
    → length (c.hex a) ≤ 16
    → length (c.hex b) ≤ 16
    → length (key_text c a b) ≡ 32
unfolding key_text
length-key_text c a b ha hb =
    let k = c.hex a ++ c.hex b in
    ground (
      arith,
      length-append (c.hex a) (c.hex b),
      length-append k (zeros (32 - length k)),
      length-zeros (32 - length k),
    )

contains-zeros : (n : ℕ) → contains (zeros n) 0 ≡ false
unfolding contains
contains-zeros zero = refl
contains-zeros (suc n) = contains-zeros n

contains-key_text :
    (c : ClientEnv) (a b : ℕ)
    → contains (c.hex a) 0 ≡ false
    → contains (c.hex b) 0 ≡ false
    → contains (key_text c a b) 0 ≡ false
unfolding key_text
contains-key_text c a b ha hb =
    let k = c.hex a ++ c.hex b in
    ground (
      arith,
      contains-append (c.hex a) (c.hex b) 0,
      contains-append k (zeros (32 - length k)) 0,
      contains-zeros (32 - length k),
    )

take-past : (k n : ℕ) (xs ys : Bytes) → k ≡ n + length xs → take k (xs ++ ys) ≡ xs ++ take n ys
take-past k n [] ys h = ap (λ m. take m ys) (omega (arith, h))
take-past zero n (x ∷ xs) ys h = ground arith
take-past (suc k) n (x ∷ xs) ys h = ap (◌∷◌ x) (take-past k n xs ys (omega (arith, h)))

length-take : (n : ℕ) (xs : Bytes) → length (take n xs) ≤ n
length-take zero xs = omega arith
length-take (suc n) [] = omega arith
length-take (suc n) (x ∷ xs) = omega (arith, length-take n xs)

contains-take : (n : ℕ) (xs : Bytes) → contains xs 0 ≡ false → contains (take n xs) 0 ≡ false
unfolding contains
contains-take zero xs h = refl
contains-take (suc n) [] h = refl
contains-take (suc n) (x ∷ xs) h = ground (arith, contains-take n xs)

module _ (c : ClientEnv) (env : Env) (ends : Ends c env) (a b : ℕ) where
  -- The bytes that are encrypted.
  sealed_bytes :
      (s : String)
      → take (c.size s + 32) (key_text c a b ++ c.to_utf8 s)
        ≡ key_text c a b ++ take (c.size s) (c.to_utf8 s)
  sealed_bytes s =
      let n = length-key_text c a b (ends.length-hex a) (ends.length-hex b) in
      take-past (c.size s + 32) (c.size s) (key_text c a b) (c.to_utf8 s) (omega (arith, n))

  -- What the server finds behind the key.
  unsealed :
      (s : String)
      → contains (c.to_utf8 s) 0 ≡ false
      → leb (c.size s + 32) (c.rsa_limit env.public_key) ≡ true
      → (k : Client)
      → env.decrypt (pub_encrypt c k a b env.public_key s).0
        ≡ key_text c a b ++ take (c.size s) (c.to_utf8 s)
  unfolding pub_encrypt
  unsealed s no_nul room k =
      let key = key_text c a b in
      let rest = take (c.size s) (c.to_utf8 s) in
      let pure_key = contains-key_text c a b (ends.no_nul_in_hex a) (ends.no_nul_in_hex b) in
      let clean : contains (key ++ rest) 0 ≡ false =
        ground (arith, contains-append key rest 0, contains-take (c.size s) (c.to_utf8 s) no_nul) in
      let key_length = length-key_text c a b (ends.length-hex a) (ends.length-hex b) in
      let fits : leb (length (key ++ rest)) (c.rsa_limit env.public_key) ≡ true =
        ground (arith, length-append key rest, length-take (c.size s) (c.to_utf8 s)) in
      rw room (
        ap (λ m. env.decrypt (c.encrypt env.public_key m)) (sealed_bytes s)
        ∙ ends.decrypts (key ++ rest) clean fits)

  -- The packet of sendSetupPacket.
  abbrev setup_message : Client → Json
  setup_message k =
      let (cipher, k₁) = pub_encrypt c k a b env.public_key k.password in
      array (
        num (negsuc 1)
        ∷ num (pos 0x412)
        ∷ str "Setup"
        ∷ str (c.to_text (setup_fields c k₁ cipher))
        ∷ [])

  -- Qt reads the texts of the two documents back as the documents.
  pub record Parsed (k : Client) : Type 0 where
    pub message : env.from_json (c.to_text (setup_message k)) ≡ some (setup_message k)
    pub fields :
        let sent = setup_fields c k (pub_encrypt c k a b env.public_key k.password).0 in
        env.from_json (c.to_text sent) ≡ some sent

  setup_parts-message :
      (k : Client)
      → Parsed k
      → setup_parts env (c.to_text (setup_message k))
        ≡ some (setup_fields c k (pub_encrypt c k a b env.public_key k.password).0)
  unfolding setup_parts pub_encrypt
  setup_parts-message k parsed =
      rw (parsed.message, setup_parts) (rw (parsed.fields, setup_parts) refl)

  -- If the password has no NUL and with the key is not too long for RSA, and Qt parses what it has
  -- printed, then the setup packet that the client sends is one that the server takes for a setup packet, with the client's name, MD5, version and UUID in it; the server
  -- decrypts its second part to the client's new AES key and as many bytes of the password in UTF-8
  -- as the password has UTF-16 units.
  pub send_setup_packet-setup_parts :
      (k : Client)
      → Parsed k
      → contains (c.to_utf8 k.password) 0 ≡ false
      → leb (c.size k.password + 32) (c.rsa_limit env.public_key) ≡ true
      → let (cipher, k₁) = pub_encrypt c k a b env.public_key k.password in
        let k' = send_setup_packet c k a b env.public_key in
        let told = env.decrypt cipher in
        (k'.router.emitted ≡ k.router.emitted ++ message_ready (setup_message k) ∷ [])
        × (setup_parts env (c.to_text (setup_message k)) ≡ some (setup_fields c k cipher))
        × (take 32 told ≡ k'.aes_key)
        × (drop 32 told ≡ take (c.size k.password) (c.to_utf8 k.password))
  unfolding send_setup_packet notify_server pub_encrypt Router.notify
  send_setup_packet-setup_parts k parsed no_nul room =
      let n = length-key_text c a b (ends.length-hex a) (ends.length-hex b) in
      let key = key_text c a b in
      let rest = take (c.size k.password) (c.to_utf8 k.password) in
      (
        refl,
        setup_parts-message k parsed,
        ap (take 32) (unsealed k.password no_nul room k) ∙ take-append 32 key rest n,
        ap (drop 32) (unsealed k.password no_nul room k) ∙ drop-append 32 key rest n,
      )

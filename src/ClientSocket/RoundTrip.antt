-- ===== src/ClientSocket/RoundTrip.antt =====
-- What one end of src/network/client_socket.cpp sends, the other end reads.
use free_kill.Base.{
  ◌&&◌, Bool, leb, if◌then◌else◌, length, drop, take, nat_eq, string_eq, int_eq, contains, ℕ, zero,
  suc, ◌≤◌, ◌≡◌, refl, ap, true, false, not, ◌||◌, Option, none, some, [], ◌∷◌, ◌++◌, arith,
}
use free_kill.ClientSocket.{Bytes, newline, mark, starts_with, zeros, Codec, ClientSocket}

-- What the code relies on: each decoder undoes its encoder, base64 and trimming pass over a line end,
-- a 64 bit number has at most 16 hexadecimal digits, and neither base64 nor hexadecimal text holds a
-- newline.
pub record CodecLaws (c : Codec) : Type 0 where
  pub uncompress-compress : (m : Bytes) → c.uncompress (c.compress m) ≡ m
  pub from_base64-to_base64 : (m : Bytes) → c.from_base64 (c.to_base64 m ++ newline) ≡ m
  pub from_base64_bare : (m : Bytes) → c.from_base64 (c.to_base64 m) ≡ m
  pub cfb_decrypt-cfb_encrypt :
      (key iv m : Bytes) → c.cfb_decrypt key iv (c.cfb_encrypt key iv m) ≡ m
  pub length-hex : (n : ℕ) → length (c.hex n) ≤ 16
  pub base64_has_no_newline : (m : Bytes) → contains (c.to_base64 m) 10 ≡ false
  pub hex_has_no_newline : (n : ℕ) → contains (c.hex n) 10 ≡ false
  pub simplified-newline : (m : Bytes) → c.simplified (m ++ newline) ≡ c.simplified m

pub length-zeros : (n : ℕ) → length (zeros n) ≡ n
length-zeros zero = refl
length-zeros (suc n) = ap suc (length-zeros n)

pub take-append : (n : ℕ) (xs ys : Bytes) → length xs ≡ n → take n (xs ++ ys) ≡ xs
take-append zero [] ys h = refl
take-append zero (x ∷ xs) ys h = ground arith
take-append (suc n) [] ys h = ground arith
take-append (suc n) (x ∷ xs) ys h = ap (◌∷◌ x) (take-append n xs ys (omega arith))

pub drop-append : (n : ℕ) (xs ys : Bytes) → length xs ≡ n → drop n (xs ++ ys) ≡ ys
drop-append zero [] ys h = refl
drop-append zero (x ∷ xs) ys h = ground arith
drop-append (suc n) [] ys h = ground arith
drop-append (suc n) (x ∷ xs) ys h = drop-append n xs ys (omega arith)

-- What aesDec makes of a line: with a key the message itself, without one the line end stays.
abbrev tail_of : Option Bytes → Bytes
tail_of none = newline
tail_of (some key) = []

starts_with_self : (p m : Bytes) → starts_with (p ++ m) p ≡ true
unfolding starts_with
starts_with_self [] m = refl
starts_with_self (x ∷ p) m = ground (arith, starts_with_self p m)

-- The reader's side of a short and of a long message.
abbrev unpack : Codec → Bytes → Bytes
unpack c msg =
    c.simplified (if starts_with msg mark then c.uncompress (c.from_base64 (drop 10 msg)) else msg)

-- Whether a message can be sent as it is: it is compressed, or it does not look compressed and, if it
-- is not encrypted, is one line.
abbrev pub is_sendable : Option Bytes → Bytes → Bool
is_sendable none msg =
    leb 1024 (length msg) || (not (starts_with msg mark) && not (contains msg 10))
is_sendable (some key) msg = leb 1024 (length msg) || not (starts_with msg mark)

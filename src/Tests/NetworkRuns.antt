-- ===== src/Tests/NetworkRuns.antt =====
-- Runs of the router and of the socket.
use free_kill.Router.Invariant.{run-init-Inv, Inv}
use free_kill.Router.Delivery.{outcome, request_answered}
use free_kill.Router.Calls.{run, step, Call, drains, opens, sends, packets, sets_socket}
use free_kill.Router.{
  no_reply, set_socket, init, drain, open_request, send_request, handle_packet, handle_reply,
}
use free_kill.Base.{
  if◌then◌else◌, ◌==◌, nat_eq, string_eq, int_eq, ◌+◌, ◌-◌, String, ◌≡◌, refl, sym, ap, true, false,
  Option, none, some, List, [], ◌∷◌, reverse,
}
use free_kill.Base.Int.{ℤ, pos}
use free_kill.Json.{array, at, to_int, Json, undefined, num, str}
use free_kill.ClientSocket.{Bytes, Codec, ClientSocket}

abbrev reply_doc : ℤ → Json
reply_doc i = array (num i ∷ num (pos 0x221) ∷ str "" ∷ str "answer" ∷ [])

abbrev read : String → Option Json
read s =
    if s == "late"
    then some (reply_doc (pos 5))
    else if s == "reply"
    then some (reply_doc (pos 1))
    else none

abbrev get_or : Option Json → Json
get_or none = undefined
get_or (some j) = j

late_is_numbered :
    (packet : Json) → read "late" ≡ some packet → (to_int (at packet 0) == no_reply) ≡ false
late_is_numbered packet e = ap (λ q. to_int (at (get_or q) 0) == no_reply) (sym e)

-- A request between whose parts the reply to the one before arrives.
abbrev traffic : List Call
traffic =
    drains
    ∷ opens 0 (pos 10)
    ∷ sends 1 0 (pos 1) "Ask" "" (pos 10) (pos 0)
    ∷ drains
    ∷ packets 3 "reply"
    ∷ opens 4 (pos 10)
    ∷ packets 3 "late"
    ∷ []

reply_is_numbered :
    (packet : Json) → read "reply" ≡ some packet → (to_int (at packet 0) == no_reply) ≡ false
reply_is_numbered packet e = ap (λ q. to_int (at (get_or q) 0) == no_reply) (sym e)

run-init-Inv_example :
    Inv (run read (init (some 1), 0) traffic).0 (run read (init (some 1), 0) traffic).1 1
run-init-Inv_example =
    run-init-Inv read (some 1) traffic
      (tt, (tt, (tt, (tt, (reply_is_numbered, (tt, (late_is_numbered, tt)))))))

-- The late reply's token is there while the second request is outstanding.
token_too_early :
    ((run read (init (some 1), 0) traffic).0.available ≡ 1)
    × ((run read (init (some 1), 0) traffic).0.expected_reply_id ≡ pos 2)
unfolding run step init set_socket drain open_request send_request handle_packet handle_reply
token_too_early = (refl, refl)

late_passes_by :
    (packet : Json) → read "late" ≡ some packet → (to_int (at packet 0) == pos 1) ≡ false
late_passes_by packet e = ap (λ q. to_int (at (get_or q) 0) == pos 1) (sym e)

request_answered_example :
    outcome (
      handle_packet read
        (run read
          (open_request (init (some 1)) 1 0 (pos 10), 1)
          (sends 1 0 (pos 1) "Ask" "" (pos 10) (pos 0)
            ∷ packets 3 "late"
            ∷ sets_socket (some 2)
            ∷ [])).0
        5000
        "reply")
    ≡ ("answer", 1)
unfolding init set_socket
request_answered_example =
    request_answered read (init (some 1)) 0 0 (pos 10)
      (sends 1 0 (pos 1) "Ask" "" (pos 10) (pos 0) ∷ packets 3 "late" ∷ sets_socket (some 2) ∷ [])
      5000 "reply" (reply_doc (pos 1)) refl (tt, (late_passes_by, (tt, tt))) refl
      (record { listed = refl; replies_only = (refl, refl, refl); numbered = refl }) refl

-- Coders that make no line end, and a trimming that takes all of them away.
encode : Bytes → Bytes
encode [] = []
encode (x ∷ xs) = (x + 11) ∷ encode xs

decode : Bytes → Bytes
decode [] = []
decode (x ∷ xs) = let rest = decode xs in if x == 10 then rest else (x - 11) ∷ rest

trim : Bytes → Bytes
trim [] = []
trim (x ∷ xs) = let rest = trim xs in if x == 10 then rest else x ∷ rest

abbrev codec : Codec
codec = record {
  compress = encode;
  uncompress = decode;
  to_base64 = encode;
  from_base64 = decode;
  hex = λ n. 49 ∷ [];
  from_hex = λ m. m;
  cfb_encrypt = λ k i m. reverse m;
  cfb_decrypt = λ k i m. reverse m;
  simplified = trim;
}

abbrev end_of : Option Bytes → ClientSocket
end_of key = record { connected = true; key = key }

-- ===== src/Router/Delivery.antt =====
-- A request of src/network/router.cpp and the reply that answers it.

use free_kill.Base.{
  ◌==◌, nat_eq, string_eq, int_eq, ℕ, suc, String, ◌≡◌, refl, ap, true, false, Option, none, some,
  List, [], ◌∷◌, arith,
}
use free_kill.Base.Int.{int_beq_iff, ℤ, pos}
use free_kill.Json.{at, is_array, to_int, to_string, Json}
use free_kill.Router.{
  type_request, type_reply, type_notification, has_flag, set_socket, remove_socket,
  set_reply_ready_semaphore, drain, open_request, send_request, reply, notify, wait_for_reply,
  timed_out, handle_reply, handle_packet, Router,
}
use free_kill.Router.Calls.{step, run, Call, opens, closes, aborts, waits, packets}

-- A step that does not end the request `id`: a packet with another number, something sent, a drain of
-- the semaphore, a change of socket or of the second semaphore.
abbrev IsBystander : (String → Option Json) → ℤ → Call → Type 0
IsBystander from_json id (packets now raw) =
    (packet : Json) → from_json raw ≡ some packet → (to_int (at packet 0) == id) ≡ false
IsBystander from_json id (opens _ _) = ⊥
IsBystander from_json id closes = ⊥
IsBystander from_json id aborts = ⊥
IsBystander from_json id waits = ⊥
IsBystander from_json id _ = Unit

abbrev AllBystanders : (String → Option Json) → ℤ → List Call → Type 0
AllBystanders from_json id [] = Unit
AllBystanders from_json id (c ∷ cs) = IsBystander from_json id c × AllBystanders from_json id cs

-- What `request` leaves behind until its reply arrives.
record IsWaiting (id : ℤ) (start : ℕ) (timeout : ℤ) (r : Router) : Type 0 where
  pub waits_for : r.expected_reply_id ≡ id
  pub no_token : r.available ≡ 0
  pub not_ready : r.m_reply ≡ "__notready"
  pub since : r.request_start_time ≡ start
  pub until : r.reply_timeout ≡ timeout

module _ (from_json : String → Option Json) (id : ℤ) (start : ℕ) (timeout : ℤ) where
  handle_reply-IsWaiting :
      (r : Router) (now : ℕ) (other : ℤ) (json_data : String)
      → (other == id) ≡ false
      → IsWaiting id start timeout r
      → IsWaiting id start timeout (handle_reply r now other json_data)
  unfolding handle_reply
  handle_reply-IsWaiting r now other json_data h v =
      ground (arith, int_beq_iff other r.expected_reply_id, int_beq_iff other id)

  handle_packet-IsWaiting :
      (r : Router) (now : ℕ) (raw : String) (doc : Option Json)
      → from_json raw ≡ doc
      → ((packet : Json) → doc ≡ some packet → (to_int (at packet 0) == id) ≡ false)
      → IsWaiting id start timeout r
      → IsWaiting id start timeout (handle_packet from_json r now raw)
  unfolding handle_packet
  handle_packet-IsWaiting r now raw none e h v = rw (e, handle_packet) v
  handle_packet-IsWaiting r now raw (some packet) e h v =
      rw (e, handle_packet)
        (ground (
          arith,
          handle_reply-IsWaiting r now (to_int (at packet 0)) (to_string (at packet 3))
              (h packet refl),
        ))

  step-IsWaiting :
      (r : Router) (last : ℕ) (c : Call)
      → IsBystander from_json id c
      → IsWaiting id start timeout r
      → IsWaiting id start timeout (step from_json (r, last) c).0
  unfolding step drain send_request reply notify remove_socket set_socket set_reply_ready_semaphore
  step-IsWaiting r last (packets now raw) h v =
      handle_packet-IsWaiting r now raw (from_json raw) refl h v
  step-IsWaiting r last (opens now wait) h v = absurd h
  step-IsWaiting r last closes h v = absurd h
  step-IsWaiting r last aborts h v = absurd h
  step-IsWaiting r last waits h v = absurd h
  step-IsWaiting r last _ h v = ground arith

  run-IsWaiting :
      (r : Router) (last : ℕ) (cs : List Call)
      → AllBystanders from_json id cs
      → IsWaiting id start timeout r
      → IsWaiting id start timeout (run from_json (r, last) cs).0
  unfolding run
  run-IsWaiting r last [] h v = v
  run-IsWaiting r last (c ∷ cs) h v =
      run-IsWaiting (step from_json (r, last) c).0 (step from_json (r, last) c).1 cs h.1
        (step-IsWaiting r last c h.0 v)

open_request-IsWaiting :
    (r : Router) (id now : ℕ) (timeout : ℤ)
    → r.available ≡ 0
    → IsWaiting (pos id) now timeout (open_request r id now timeout)
unfolding open_request
open_request-IsWaiting r id now timeout e = record {
  waits_for = refl;
  no_token = e;
  not_ready = refl;
  since = refl;
  until = refl;
}

-- A packet that is a reply under the number `id`.
pub record IsReply (id : ℤ) (packet : Json) : Type 0 where
  pub listed : is_array packet ≡ true
  pub replies_only :
      (has_flag (to_int (at packet 1)) type_notification ≡ false)
      × (has_flag (to_int (at packet 1)) type_request ≡ false)
      × (has_flag (to_int (at packet 1)) type_reply ≡ true)
  pub numbered : to_int (at packet 0) ≡ id

-- What waitForReply returns and the tokens that it finds, after the packet.
abbrev pub outcome : Router → String × ℕ
outcome r = ((wait_for_reply r).0, r.available)

handle_reply-outcome :
    (id : ℤ) (start : ℕ) (timeout : ℤ) (r : Router) (now : ℕ) (given : ℤ) (json_data : String)
    → given ≡ id
    → timed_out timeout start now ≡ false
    → IsWaiting id start timeout r
    → outcome (handle_reply r now given json_data) ≡ (json_data, 1)
unfolding handle_reply wait_for_reply
handle_reply-outcome id start timeout r now given json_data e t v = ground (
  arith,
  int_beq_iff given r.expected_reply_id,
  ap (λ (d : ℤ). timed_out d r.request_start_time now) v.until,
  ap (λ (s : ℕ). timed_out timeout s now) v.since,
)

-- If the semaphore is empty when a request is opened, then until its own reply any packets with other
-- numbers may arrive, anything but another request may be sent, the semaphore may be drained, and the
-- sockets and the second semaphore may change, as long as the request is not cancelled, not aborted
-- and not waited for. If the reply then comes in time, one token is in the semaphore, so waitForReply
-- does not block, and it returns the text of that reply.
pub request_answered :
    (from_json : String → Option Json) (r : Router) (last now : ℕ) (timeout : ℤ) (cs : List Call)
    (later : ℕ) (raw : String) (packet : Json)
    → r.available ≡ 0
    → AllBystanders from_json (pos (suc last)) cs
    → from_json raw ≡ some packet
    → IsReply (pos (suc last)) packet
    → timed_out timeout now later ≡ false
    → outcome (
        handle_packet from_json
          (run from_json (open_request r (suc last) now timeout, suc last) cs).0
          later
          raw)
      ≡ (to_string (at packet 3), 1)
unfolding handle_packet
request_answered from_json r last now timeout cs later raw packet empty bs e p t =
    let waiting =
      run-IsWaiting from_json (pos (suc last)) now timeout (open_request r (suc last) now timeout)
        (suc last) cs bs (open_request-IsWaiting r (suc last) now timeout empty) in
    rw (e, handle_packet, p.listed, p.replies_only.0, p.replies_only.1, p.replies_only.2)
      (handle_reply-outcome (pos (suc last)) now timeout _ later (to_int (at packet 0))
        (to_string (at packet 3)) p.numbered t waiting)

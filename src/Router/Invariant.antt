-- ===== src/Router/Invariant.antt =====
-- The reply semaphore of src/network/router.cpp over any sequence of calls.
use free_kill.Base.{
  if◌then◌else◌, ◌==◌, nat_eq, string_eq, int_eq, ℕ, suc, ◌+◌, ◌≤◌, String, ◌≡◌, refl, false,
  Option, none, some, List, [], ◌∷◌, arith,
}
use free_kill.Router.{
  no_reply, set_socket, init, remove_socket, set_reply_ready_semaphore, drain, open_request,
  send_request, close_request, reply, notify, wait_for_reply, abort_request, handle_reply,
  handle_packet, Router,
}
use free_kill.Base.Int.{int_beq_iff, ℤ, pos}
use free_kill.Json.{at, to_int, to_string, Json}
use free_kill.Router.Calls.{step, run, Call, drains, opens, closes, waits, aborts, packets}

-- A packet whose first element is not -1.
abbrev IsNumbered : (String → Option Json) → Call → Type 0
IsNumbered from_json (packets now raw) =
    (packet : Json) → from_json raw ≡ some packet → (to_int (at packet 0) == no_reply) ≡ false
IsNumbered from_json _ = Unit

abbrev AllNumbered : (String → Option Json) → List Call → Type 0
AllNumbered from_json [] = Unit
AllNumbered from_json (c ∷ cs) = IsNumbered from_json c × AllNumbered from_json cs

-- The requests opened since the semaphore was drained last, `n` before.
abbrev pub opened_since : ℕ → List Call → ℕ
opened_since n [] = n
opened_since n (drains ∷ cs) = opened_since 0 cs
opened_since n (opens now timeout ∷ cs) = opened_since (suc n) cs
opened_since n (_ ∷ cs) = opened_since n cs

-- 1 if a request is outstanding
abbrev pub outstanding : Router → ℕ
outstanding r = if r.expected_reply_id == no_reply then 0 else 1

pub record Inv (r : Router) (last opened : ℕ) : Type 0 where
  pub few_tokens : r.available + outstanding r ≤ 1 + opened
  pub known : (n : ℕ) → r.expected_reply_id ≡ pos n → n ≤ last

init-Inv : (s : Option ℕ) → Inv (init s) 0 0
unfolding init
init-Inv s = record { few_tokens = omega arith; known = λ n e. ground arith }

handle_reply-Inv :
    (r : Router) (last opened now : ℕ) (id : ℤ) (json_data : String)
    → (id == no_reply) ≡ false
    → Inv r last opened
    → Inv (handle_reply r now id json_data) last opened
unfolding handle_reply
handle_reply-Inv r last opened now id json_data h v = record {
  few_tokens = ground (
    arith,
    v.few_tokens,
    int_beq_iff id r.expected_reply_id,
    int_beq_iff id no_reply,
    int_beq_iff r.expected_reply_id no_reply,
  );
  known = λ n e. ground (arith, v.known n, int_beq_iff id r.expected_reply_id);
}

handle_packet-Inv :
    (from_json : String → Option Json) (r : Router) (last opened now : ℕ) (raw : String)
    (doc : Option Json)
    → from_json raw ≡ doc
    → ((packet : Json) → doc ≡ some packet → (to_int (at packet 0) == no_reply) ≡ false)
    → Inv r last opened
    → Inv (handle_packet from_json r now raw) last opened
unfolding handle_packet
handle_packet-Inv from_json r last opened now raw none e h v = rw (e, handle_packet) v
handle_packet-Inv from_json r last opened now raw (some packet) e h v =
    let replied =
      handle_reply-Inv r last opened now (to_int (at packet 0)) (to_string (at packet 3))
        (h packet refl) v in
    rw (e, handle_packet)
      (record {
        few_tokens = ground (arith, v.few_tokens, replied.few_tokens);
        known = λ n q. ground (arith, v.known n, replied.known n);
      })

abort_request-Inv :
    (r : Router) (last opened : ℕ) → Inv r last opened → Inv (abort_request r) last opened
unfolding abort_request
abort_request-Inv r last opened v = record {
  few_tokens = ground (arith, v.few_tokens, int_beq_iff r.expected_reply_id no_reply);
  known = λ n e. ground (arith, v.known n);
}

run-Inv :
    (from_json : String → Option Json) (r : Router) (last opened : ℕ) (cs : List Call)
    → AllNumbered from_json cs
    → Inv r last opened
    → Inv (run from_json (r, last) cs).0 (run from_json (r, last) cs).1 (opened_since opened cs)
unfolding run step drain open_request send_request reply notify close_request wait_for_reply
    remove_socket set_socket set_reply_ready_semaphore
run-Inv from_json r last opened [] h v = v
run-Inv from_json r last opened (packets now raw ∷ cs) h v =
    run-Inv from_json (handle_packet from_json r now raw) last opened cs h.1
      (handle_packet-Inv from_json r last opened now raw (from_json raw) refl h.0 v)
run-Inv from_json r last opened (aborts ∷ cs) h v =
    run-Inv from_json (abort_request r) last opened cs h.1 (abort_request-Inv r last opened v)
run-Inv from_json r last opened (drains ∷ cs) h v =
    run-Inv from_json (drain r) last 0 cs h.1
      (record { few_tokens = ground arith; known = v.known })
run-Inv from_json r last opened (opens now timeout ∷ cs) h v =
    run-Inv from_json (open_request r (suc last) now timeout) (suc last) (suc opened) cs h.1
      (record { few_tokens = ground (arith, v.few_tokens); known = λ n e. ground arith })
run-Inv from_json r last opened (closes ∷ cs) h v =
    run-Inv from_json (close_request r) last opened cs h.1
      (record { few_tokens = ground (arith, v.few_tokens); known = λ n e. ground arith })
run-Inv from_json r last opened (waits ∷ cs) h v =
    run-Inv from_json (wait_for_reply r).1 last opened cs h.1
      (record { few_tokens = ground (arith, v.few_tokens); known = v.known })
run-Inv from_json r last opened (c ∷ cs) h v =
    run-Inv from_json (step from_json (r, last) c).0 last opened cs h.1
      (record { few_tokens = v.few_tokens; known = v.known })

-- From a new router, in whatever order the threads' steps come, but without a packet that carries the
-- number -1: the tokens in the reply semaphore, with one for an outstanding request, are at most one
-- more than the requests that were opened since the semaphore was drained last; the outstanding
-- number is one that was given out.
pub run-init-Inv :
    (from_json : String → Option Json) (s : Option ℕ) (cs : List Call)
    → AllNumbered from_json cs
    → Inv (run from_json (init s, 0) cs).0 (run from_json (init s, 0) cs).1 (opened_since 0 cs)
run-init-Inv from_json s cs h = run-Inv from_json (init s) 0 0 cs h (init-Inv s)

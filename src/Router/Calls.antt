-- ===== src/Router/Calls.antt =====
-- Histories of atomic steps of a router of src/network/router.cpp.
use free_kill.Base.{ℕ, suc, String, Option, List, [], ◌∷◌}
use free_kill.Base.Int.{ℤ}
use free_kill.Json.{Json}
use free_kill.Router.{
  set_socket, remove_socket, set_reply_ready_semaphore, drain, open_request, send_request, reply,
  notify, close_request, wait_for_reply, abort_request, handle_packet, Router,
}

-- One atomic step: a member function, or a part of request or cancelRequest, with the clock where the
-- function reads it. A request is drains, opens and sends, a cancelled one closes and drains; other
-- threads' steps may come between.
pub data Call : Type 0 where
  drains : Call
  opens : ℕ → ℤ → Call  -- with the next number
  sends : ℕ → ℕ → ℤ → String → String → ℤ → ℤ → Call
  replies notifies : ℤ → String → String → Call
  closes aborts waits removes_socket : Call
  packets : ℕ → String → Call
  sets_socket sets_semaphore : Option ℕ → Call

-- The router with the last request id given out.
unfoldable pub step : (String → Option Json) → Router × ℕ → Call → Router × ℕ
step from_json (r, last) drains = (drain r, last)
step from_json (r, last) (opens now timeout) = (open_request r (suc last) now timeout, suc last)
step from_json (r, last) (sends id now type command json_data timeout timestamp) =
    (send_request r id now type command json_data timeout timestamp, last)
step from_json (r, last) (replies type command json_data) = (reply r type command json_data, last)
step from_json (r, last) (notifies type command json_data) = (notify r type command json_data, last)
step from_json (r, last) closes = (close_request r, last)
step from_json (r, last) aborts = (abort_request r, last)
step from_json (r, last) waits = ((wait_for_reply r).1, last)
step from_json (r, last) removes_socket = (remove_socket r, last)
step from_json (r, last) (packets now raw) = (handle_packet from_json r now raw, last)
step from_json (r, last) (sets_socket s) = (set_socket r s, last)
step from_json (r, last) (sets_semaphore s) = (set_reply_ready_semaphore r s, last)

unfoldable pub run : (String → Option Json) → Router × ℕ → List Call → Router × ℕ
run from_json s [] = s
run from_json s (c ∷ cs) = run from_json (step from_json s c) cs

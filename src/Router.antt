-- ===== src/Router.antt =====
-- src/network/router.cpp and router.h: requests and their replies over one socket.
-- A member function returns the new router. What leaves it (signals, releases of the second
-- semaphore, sockets handed to deleteLater) is appended to a log in the record. The function-local
-- `static int requestId` is an argument and a result; it is not let wrap. A clock reading in
-- milliseconds is an argument. Each function is one atomic step, but for request and cancelRequest,
-- which drain the semaphore outside `replyMutex`: their parts are functions of their own. waitForReply
-- is taken at the moment at which it reads the text, with the token that it has acquired.
pub mod Calls
pub mod Invariant
pub mod Delivery
use Prim.Native.Nat.{bit_and}
use free_kill.Base.{
  ltb, if◌then◌else◌, ◌==◌, nat_eq, int_eq, ℕ, suc, ◌+◌, ◌-◌, ◌/◌, String, Bool, false, not, Option,
  none, some, List, [], ◌∷◌, ◌++◌,
}
use free_kill.Base.Int.{is_positive, ℤ, pos, negsuc}
use free_kill.Json.{array, at, is_array, to_int, to_integer, to_string, Json, num, str}

abbrev pub type_request : ℕ
type_request = 0x100

abbrev pub type_reply : ℕ
type_reply = 0x200

abbrev pub type_notification : ℕ
type_notification = 0x400

abbrev src_client : ℕ
src_client = 0x010

abbrev src_server : ℕ
src_server = 0x020

abbrev dest_client : ℕ
dest_client = 0x001

abbrev dest_server : ℕ
dest_server = 0x002

-- `type & flag` for one flag; the bits of a negative int are those of its complement.
abbrev pub has_flag : ℤ → ℕ → Bool
has_flag (pos n) flag = not (bit_and n flag == 0)
has_flag (negsuc n) flag = bit_and n flag == 0

pub data Signal : Type 0 where
  message_ready : Json → Signal
  notification_got : String → String → Signal
  request_got : String → String → Signal
  reply_ready : Signal

pub record Router : Type 0 where
  pub socket : Option ℕ
  pub request_id : ℤ  -- client side: the request being answered
  pub request_timeout : ℤ
  pub request_timestamp : ℤ
  pub request_start_time : ℕ
  pub expected_reply_id : ℤ
  pub reply_timeout : ℤ
  pub m_reply : String
  pub available : ℕ  -- replyReadySemaphore
  pub extra : Option ℕ  -- extraReplyReadySemaphore
  pub released : List ℕ  -- the releases of such semaphores
  pub emitted : List Signal
  pub deleted : List ℕ  -- sockets given to deleteLater

abbrev pub no_reply : ℤ
no_reply = negsuc 0

abbrev pub emit : Router → Signal → Router
emit r s = record r { emitted = r.emitted ++ s ∷ [] }

-- `if (extraReplyReadySemaphore) extraReplyReadySemaphore->release(); ... = nullptr`
abbrev release_extra : Router → Option ℕ → Router
release_extra r none = r
release_extra r (some s) = record r { released = r.released ++ s ∷ []; extra = none }

abbrev drop_socket : Option ℕ → List ℕ → List ℕ
drop_socket none ds = ds
drop_socket (some s) ds = ds ++ s ∷ []

unfoldable pub set_socket : Router → Option ℕ → Router
set_socket r new = record r { deleted = drop_socket r.socket r.deleted; socket = new }

unfoldable pub init : Option ℕ → Router
unfolding set_socket
init sock =
    set_socket
      (record {
        socket = none;
        request_id = pos 0;
        request_timeout = pos 0;
        request_timestamp = pos 0;
        request_start_time = 0;
        expected_reply_id = no_reply;
        reply_timeout = pos 0;
        m_reply = "";
        available = 0;
        extra = none;
        released = [];
        emitted = [];
        deleted = [];
      })
      sock

pub remove_socket : Router → Router
remove_socket r = record r { socket = none }

pub set_reply_ready_semaphore : Router → Option ℕ → Router
set_reply_ready_semaphore r semaphore = record r { extra = semaphore }

-- Outside the mutex; draining an empty semaphore changes nothing, so both branches of the test leave
-- it at 0.
unfoldable pub drain : Router → Router
drain r = record r { available = 0 }

-- The part of request between lock and unlock, with the number
unfoldable pub open_request : Router → ℕ → ℕ → ℤ → Router
open_request r id now timeout = record r {
  expected_reply_id = pos id;
  reply_timeout = timeout;
  request_start_time = now;
  m_reply = "__notready";
}

-- The rest of request
unfoldable pub send_request : Router → ℕ → ℕ → ℤ → String → String → ℤ → ℤ → Router
send_request r id now type command json_data timeout timestamp = emit r (
    message_ready (
      array (
        num (pos id)
        ∷ num type
        ∷ str command
        ∷ str json_data
        ∷ num timeout
        ∷ num (if is_positive timestamp then timestamp else pos now)
        ∷ [])))

-- request, if nothing comes between its parts
request : Router → ℕ → ℕ → ℤ → String → String → ℤ → ℤ → Router × ℕ
unfolding drain open_request send_request
request r last_id now type command json_data timeout timestamp =
    let id = suc last_id in
    (
      send_request (open_request (drain r) id now timeout) id now type command json_data timeout
          timestamp,
      id,
    )

pub reply : Router → ℤ → String → String → Router
reply r type command json_data =
    emit r (message_ready (array (num r.request_id ∷ num type ∷ str command ∷ str json_data ∷ [])))

unfoldable pub notify : Router → ℤ → String → String → Router
notify r type command json_data =
    emit r (message_ready (array (num (negsuc 1) ∷ num type ∷ str command ∷ str json_data ∷ [])))

get_timeout : Router → ℤ
get_timeout r = r.request_timeout

-- The part of cancelRequest between lock and unlock
unfoldable pub close_request : Router → Router
close_request r = record r { expected_reply_id = no_reply; reply_timeout = pos 0; extra = none }

-- cancelRequest, if nothing comes between its parts
cancel_request : Router → Router
unfolding close_request drain
cancel_request r = drain (close_request r)

-- The moment at which `tryAcquire` returns: with a token, or with none when the time is over.
pub wait_for_reply : Router → String × Router
wait_for_reply r = (r.m_reply, record r { available = r.available - 1 })

pub abort_request : Router → Router
abort_request r = if r.expected_reply_id == no_reply then r else record (release_extra r r.extra) {
  available = r.available + 1;
  expected_reply_id = no_reply;
  extra = none;
}

-- `replyTimeout >= 0 && replyTimeout < secsTo(now)`; a clock set back counts as no time gone.
abbrev pub timed_out : ℤ → ℕ → ℕ → Bool
timed_out (pos t) start now = ltb t ((now - start) / 1000)
timed_out (negsuc t) start now = false

-- The branch of handlePacket for TYPE_REPLY.
unfoldable pub handle_reply : Router → ℕ → ℤ → String → Router
handle_reply r now id json_data =
    if id == r.expected_reply_id
    then (let answered = record r { expected_reply_id = no_reply } in
        if timed_out r.reply_timeout r.request_start_time now
        then answered
        else emit
            (release_extra (record answered { m_reply = json_data; available = r.available + 1 })
              r.extra)
            reply_ready)
    else r

abbrev handle_fields : Router → ℕ → Json → Router
unfolding handle_reply
handle_fields r now packet =
    let id = to_int (at packet 0) in
    let type = to_int (at packet 1) in
    let command = to_string (at packet 2) in
    let json_data = to_string (at packet 3) in
    if has_flag type type_notification
    then emit r (notification_got command json_data)
    else if has_flag type type_request
    then emit
        (record r {
          request_id = id;
          request_timeout = to_int (at packet 4);
          request_timestamp = to_integer (at packet 5);
        })
        (request_got command json_data)
    else if has_flag type type_reply
    then handle_reply r now id json_data
    else r

-- `none` is a null document: text that is no JSON.
unfoldable pub handle_packet : (String → Option Json) → Router → ℕ → String → Router
unfolding handle_reply
handle_packet from_json r now raw = elim (from_json raw) [
  | none ↦ r
  | some packet ↦ if is_array packet then handle_fields r now packet else r
]

-- ===== src/World.antt =====
-- The objects of a running server and what leaves it: src/server/{server,lobby,room,roombase,
-- roomthread,serverplayer}.h. Objects stand in heaps, functions from an address; the maps and lists
-- of the source hold addresses. A signal is the call of the slots connected to it, in order.
pub mod Notify
use free_kill.Base.{
  if◌then◌else◌, ◌==◌, nat_eq, string_eq, int_eq, ℕ, ◌*◌, String, Bool, true, Option, none, some,
  List, [], ◌∷◌, ◌++◌,
}
use free_kill.Base.Int.{ℤ}
use free_kill.Json.{get, to_string, Json, obj, end}
use free_kill.Player.{state_beq, State, Player, online}
use free_kill.Database.{Database}

-- RoomBase *: a player is in the lobby or in a room.
pub data Place : Type 0 where
  lobby : Place
  in_room : ℕ → Place

pub record ServerPlayer : Type 0 where
  pub base : Player
  pub open base use *
  pub socket : Option ℕ
  pub room : Place
  pub alive : Bool
  pub thinking : Bool
  pub uuid : String
  pub game_time : ℕ
  pub timer_start : ℕ  -- gameTimer, by the clock when it was started

pub record Room : Type 0 where
  pub id : ℤ
  pub thread : ℕ
  pub name : String
  pub capacity : ℤ
  pub settings : String
  pub abandoned : Bool
  pub owner : Option ℕ
  pub runned_players : List ℤ
  pub rejected_players : List ℤ
  pub robot_id : ℤ
  pub game_started : Bool
  pub timeout : ℤ
  pub md5 : String
  pub lua_ref_count : ℤ
  pub inside_game_over : Bool
  pub request_timer : Option ℕ
  pub players : List ℕ
  pub observers : List ℕ

pub record RoomThread : Type 0 where
  pub capacity : ℤ
  pub md5 : String
  pub rooms : List ℕ  -- findChildren<Room *>()

pub record ClientSocket : Type 0 where
  pub peer_address : String
  pub connected : Bool
  pub signup_timer : Bool

pub data Payload : Type 0 where
  text : String → Payload
  json : Json → Payload

-- A notification on its way to a client.
pub record Packet : Type 0 where
  pub to : ℕ
  pub command : String
  pub body : Payload

-- What a room tells its thread: `pushRequest` in three parts, `wakeUp`, `delay`.
pub data ThreadSignal : Type 0 where
  pushes_request : ℤ → ℤ → String → ThreadSignal
  wakes_up : ℤ → String → ThreadSignal
  delays : ℤ → ℤ → ThreadSignal

-- A single shot timer and what it does when it fires.
pub data Timer : Type 0 where
  unban : String → Timer  -- temp_banlist.removeOne(addr)
  unreject : ℕ → ℤ → Timer  -- removeRejectId(i) of a room

pub record World : Type 0 where
  pub player : ℕ → ServerPlayer
  pub room : ℕ → Room
  pub thread : ℕ → RoomThread
  pub sock : ℕ → ClientSocket
  pub next_player : ℕ  -- the address of the next new ServerPlayer
  pub next_thread : ℕ
  pub lobby_players : List ℕ
  pub rooms : List ℕ  -- the server's map of rooms; a room's address is its first id
  pub next_room_id : ℕ
  pub players : List (ℤ × ℕ)  -- the server's map of players
  pub threads : List ℕ
  pub temp_banlist : List String
  pub config : List (String × Json)
  pub md5 : String
  pub db : Database
  pub clock : ℕ  -- milliseconds
  pub sent : List Packet
  pub signals : List (ℕ × ThreadSignal)
  pub timers : List (ℕ × Timer)  -- with the delay in milliseconds
  pub deleted : List ℕ  -- players given to deleteLater
  pub deleted_rooms : List ℕ
  pub deleted_sockets : List ℕ
  pub faulted : Bool  -- a null pointer was dereferenced

-- What the program leaves to Qt, OpenSSL, the packages and the build. `closes_now` says of a socket
-- that is asked to disconnect that nothing is left to write, so that it says `disconnected` at once.
pub record Env : Type 0 where
  pub from_json : String → Option Json  -- none: a null document
  pub print : ℤ → String  -- QString::arg(int)
  pub print_json : Json → String  -- QJsonDocument(value.toObject()).toJson(Compact)
  pub read_int : String → ℤ  -- QString::toInt()
  pub less : String → String → Bool  -- QString's operator<, the order of a QMap
  pub closes_now : ℕ → Bool
  pub client_instance : Bool  -- the server runs inside a client
  pub compare_version : String → ℤ  -- QVersionNumber::compare(FK_VERSION, the text)
  pub public_key : String
  pub decrypt : String → List ℕ  -- base64 and RSA, up to the first NUL
  pub sha256_hex : List ℕ → String
  pub pack_summary : String  -- Pacman->getPackSummary()

abbrev pub update {ℓ} : {A : Type ℓ} → (ℕ → A) → ℕ → A → ℕ → A
update f a v b = if a == b then v else f b

abbrev pub set_player : World → ℕ → ServerPlayer → World
set_player w p v = record w { player = update w.player p v }

abbrev pub set_base : World → ℕ → Player → World
set_base w p v = set_player w p (record (w.player p) { base = v })

abbrev pub set_room : World → ℕ → Room → World
set_room w r v = record w { room = update w.room r v }

abbrev pub set_thread : World → ℕ → RoomThread → World
set_thread w t v = record w { thread = update w.thread t v }

abbrev pub fault : World → World
fault w = record w { faulted = true }

abbrev pub delete_later : World → ℕ → World
delete_later w p = record w { deleted = w.deleted ++ p ∷ [] }

abbrev pub is_online : State → Bool
is_online s = state_beq s online

-- doc["key"].toString() of a parsed text; a null document reads as undefined.
abbrev pub setting : Env → String → String → String
setting env settings key = elim (env.from_json settings) [
  | none ↦ ""
  | some doc ↦ to_string (get doc key)
]

-- QJsonDocument::fromJson(text).object(); whatever is no object reads as an empty one.
abbrev object_of : Option Json → Json
object_of (some (obj fields)) = obj fields
object_of _ = obj end

abbrev pub settings_object : Env → String → Json
settings_object env settings = object_of (env.from_json settings)

-- ===== src/Tests/Data.antt =====
-- A small server: a room with its owner Alice and with Bob, and Cao in the lobby.
use free_kill.Base.{
  if◌then◌else◌, ◌==◌, nat_eq, string_eq, ℕ, String, Bool, true, false, Option, none, some, List,
  [], ◌∷◌,
}
use free_kill.Base.Int.{ℤ, pos, negsuc}
use free_kill.Json.{Json, num, str, array}
use free_kill.Player.{Player, new_player, State, online, offline}
use free_kill.Database.{UserInfo, Database}
use free_kill.World.{
  ServerPlayer, Room, RoomThread, ClientSocket, World, Env, Place, lobby, in_room,
}

abbrev person : ℤ → String → State → Player
person i name s = record new_player { id = i; screen_name = name; state = s }

abbrev server_player : ℤ → String → State → Option ℕ → Place → ServerPlayer
server_player i name s sock place = record {
  base = person i name s;
  socket = sock;
  room = place;
  alive = true;
  thinking = false;
  uuid = "u";
  game_time = 0;
  timer_start = 0;
}

-- 1 is Alice, 2 Bob, 3 Cao, 4 Dong, who is offline.
abbrev people : ℕ → ServerPlayer
people p =
    if p == 1
    then server_player (pos 11) "Alice" online (some 1) (in_room 7)
    else if p == 2
    then server_player (pos 12) "Bob" online (some 2) (in_room 7)
    else if p == 3
    then server_player (pos 13) "Cao" online (some 3) lobby
    else server_player (pos 14) "Dong" offline none (in_room 7)

abbrev pub a_room : List ℕ → Bool → Room
a_room ps started = record {
  id = pos 7;
  thread = 0;
  name = "r";
  capacity = pos 3;
  settings = "{}";
  abandoned = false;
  owner = some 1;
  runned_players = [];
  rejected_players = [];
  robot_id = negsuc 1;
  game_started = started;
  timeout = pos 15;
  md5 = "m";
  lua_ref_count = pos 0;
  inside_game_over = false;
  request_timer = none;
  players = ps;
  observers = [];
}

abbrev thread₀ : RoomThread
thread₀ = record { capacity = pos 200; md5 = "m"; rooms = 7 ∷ [] }

abbrev sock₀ : ℕ → ClientSocket
sock₀ s = record {
  peer_address = if s == 9 then "10.0.0.9" else "10.0.0.1";
  connected = true;
  signup_timer = true;
}

abbrev pub alice : UserInfo
alice = record {
  id = pos 11;
  name = "Alice";
  password = "hash";
  salt = "0";
  avatar = "liubei";
  last_login_ip = "10.0.0.7";
  banned = false;
}

abbrev pub cai : UserInfo
cai = record alice { id = pos 15; name = "Cai" }

abbrev database₀ : Database
database₀ = record {
  userinfo = alice ∷ cai ∷ [];
  banip = [];
  uuidinfo = [];
  banuuid = [];
  game_time = [];
  run_rate = [];
  p_win_rate = [];
  g_win_rate = [];
}

abbrev a_world : List ℕ → Bool → World
a_world ps started = record {
  player = people;
  room = λ r. a_room ps started;
  thread = λ t. thread₀;
  sock = sock₀;
  next_player = 20;
  next_thread = 1;
  lobby_players = 3 ∷ [];
  rooms = 7 ∷ [];
  next_room_id = 8;
  players = (pos 11, 1) ∷ (pos 12, 2) ∷ (pos 13, 3) ∷ [];
  threads = 0 ∷ [];
  temp_banlist = [];
  config = ("capacity", num (pos 100)) ∷ [];
  md5 = "m";
  db = database₀;
  clock = 1000;
  sent = [];
  signals = [];
  timers = [];
  deleted = [];
  deleted_rooms = [];
  deleted_sockets = [];
  faulted = false;
}

abbrev pub waiting : World
waiting = a_world (1 ∷ 2 ∷ []) false

abbrev pub playing_world : World
playing_world = a_world (1 ∷ 2 ∷ []) true

-- Nobody but the offline Dong and Alice, who is about to leave.
abbrev pub nearly_empty : World
nearly_empty = a_world (1 ∷ 4 ∷ []) false

abbrev zeros_33 : List ℕ
zeros_33 =
    0 ∷ 0 ∷ 0 ∷ 0 ∷ 0 ∷ 0 ∷ 0 ∷ 0 ∷ 0 ∷ 0 ∷ 0 ∷ 0 ∷ 0 ∷ 0 ∷ 0 ∷ 0 ∷ 0 ∷ 0 ∷ 0 ∷ 0 ∷ 0 ∷ 0 ∷ 0 ∷ 0
    ∷ 0 ∷ 0 ∷ 0 ∷ 0 ∷ 0 ∷ 0 ∷ 0 ∷ 0 ∷ 49 ∷ []

abbrev setup_doc : Json
setup_doc = array (num (negsuc 1) ∷ num (pos 0x412) ∷ str "Setup" ∷ str "parts" ∷ [])

abbrev parts_doc : Json
parts_doc = array (str "Cai" ∷ str "pw" ∷ str "m" ∷ str "old" ∷ str "u" ∷ [])

abbrev parse : String → Option Json
parse s = if s == "setup" then some setup_doc else if s == "parts" then some parts_doc else none

abbrev pub env₀ : Env
env₀ = record {
  from_json = parse;
  print = λ i. "n";
  print_json = λ j. "j";
  read_int = λ s. pos 0;
  less = λ a b. true;
  closes_now = λ s. true;
  client_instance = false;
  compare_version = λ v. if v == "old" then pos 1 else pos 0;
  public_key = "k";
  decrypt = λ s. zeros_33;
  sha256_hex = λ b. "hash";
  pack_summary = "[]";
}

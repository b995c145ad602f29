-- ===== src/Tests/HostRuns.antt =====
-- Runs of the client's back end and records, of the start, of SELECT and of an abandoned room.
use free_kill.Backend.{get_server_info, count_files, play_sound, BackendEnv, found, not_found}
use free_kill.Backend.Numbered.{pick, play_sound-pick}
use free_kill.ServerSocket.{ascii, details, SocketEnv}
use free_kill.Client.Records.{
  empty_db, play_blob_record, review_game_over_scene, Game, RecordEnv, ClientDb,
}
use free_kill.Client.Kept.{save_all, saved_game_found, RecordLaws, IsSequential}
use free_kill.Start.{start_server, freekill_main, Options, StartEnv, aborts, serves}
use free_kill.Start.Port.{PortFor, freekill_main-port}
use free_kill.Shell.Listing.{format_ms_duration, days, hours, minutes, seconds}
use free_kill.Sqlite.{Row, select_json}
use free_kill.Sqlite.Columns.{select_json-column_value}
use free_kill.Room.References.{change_refs, abandoned_room_deleted, hold, release}
use free_kill.Room.Basics.{on_room_abandoned, decrease_ref_count}
use free_kill.World.{set_room, World}
use free_kill.Json.{at, get, Json, str}
use free_kill.Tests.Data.{waiting}
use free_kill.Base.{
  if◌then◌else◌, length, drop, ◌==◌, int_eq, nat_eq, string_eq, contains, count, ℕ, zero, suc, ◌<◌,
  String, ◌≡◌, refl, sym, ap, ◌∙◌, true, false, none, some, List, [], ◌∷◌, ◌++◌, arith,
}
use free_kill.Base.Int.{ℤ, pos, negsuc}

-- So many letters
abbrev letters : ℕ → String
letters zero = String.[]
letters (suc n) = String.◌∷◌ "a" (letters n)

abbrev numbered : String → ℤ → String
numbered name (pos n) = letters n
numbered name (negsuc n) = "none"

size : String → ℕ
size String.[] = 0
size (String.◌∷◌ c s) = suc (size s)

size-letters : (n : ℕ) → size (letters n) ≡ n
unfolding size
size-letters zero = refl
size-letters (suc n) = ap suc (size-letters n)

letters_inj : (i j : ℕ) → letters i ≡ letters j → i ≡ j
letters_inj i j e = sym (size-letters i) ∙ ap size e ∙ size-letters j

abbrev socket_env : SocketEnv
socket_env = record { version = "0.5"; from_utf8 = λ b. "h,9"; print_json = λ j. ascii "[]" }

abbrev the_card : Json
the_card = details socket_env waiting (ascii "h" ++ ascii ",9")

-- The name "h" is found only by its SRV record.
abbrev backend_env : BackendEnv
backend_env = record {
  to_latin1 = ascii;
  to_utf8 = ascii;
  print_port = λ p. ascii ",9";
  is_address = λ a. false;
  lookup_host = λ a. if a == "h" then not_found else found "10.0.0.1";
  lookup_srv = λ a. some ("t", 7);
  has_colon = λ a. false;
  parse = λ b. some the_card;
  print_json = λ j. ascii "[]";
  file_name = numbered;
  plain_name = λ n. "plain";
}

one_question : length (get_server_info backend_env "h" 9) ≡ 1
unfolding get_server_info
one_question = refl

abbrev sounds : List String
sounds = "a" ∷ "aa" ∷ "plain" ∷ "aaaa" ∷ []

play_sound-pick_example :
    (n : ℕ) × (play_sound 5 backend_env sounds "x" (negsuc 0) 8
      ≡ some (pick backend_env sounds "x" n 8))
    × ((i : ℕ) → i < n → contains sounds (letters (suc i)) ≡ true)
    × (contains sounds (letters (suc n)) ≡ false)
play_sound-pick_example = play_sound-pick backend_env sounds "x" 8 5 letters_inj (omega arith)

-- The random number 8 picks the first of two variants.
second_variant : play_sound 5 backend_env sounds "x" (negsuc 0) 8 ≡ some (some "a")
unfolding play_sound contains count_files
second_variant = refl

abbrev a_game : Game
a_game = record {
  time = 5;
  pid = pos 1;
  server_addr = "10.0.0.1";
  mode = "aaa_role_mode";
  general = "caocao";
  deputy_general = "";
  role = "lord";
  result = pos 1;
}

abbrev record_env : RecordEnv
record_env = record {
  compress = λ b. 0 ∷ b;
  uncompress = drop 1;
  to_hex = λ b. b;
  from_hex = λ b. b;
  blob = λ b. b;
  sql_hex = λ b. b;
  is_statement = λ g. true;
  record_name = λ b. "r";
}

record_env-RecordLaws : RecordLaws record_env
record_env-RecordLaws = record {
  uncompress-compress = λ b. refl;
  from_hex-sql_hex = λ b. refl;
  blob-to_hex = λ b. refl;
}

empty_db-IsSequential : IsSequential empty_db
empty_db-IsSequential = record { next = refl; room_ids = tt; recording_ids = tt }

abbrev two_games : ClientDb
two_games = save_all record_env empty_db ((a_game, 1 ∷ [], 2 ∷ []) ∷ (a_game, 3 ∷ [], 4 ∷ []) ∷ [])

saved_game_found_example :
    (play_blob_record record_env two_games 1 ≡ some (2 ∷ []))
    × (review_game_over_scene record_env two_games 1 ≡ some (1 ∷ []))
saved_game_found_example =
    saved_game_found record_env record_env-RecordLaws empty_db a_game (1 ∷ []) (2 ∷ [])
      ((a_game, 3 ∷ [], 4 ∷ []) ∷ []) empty_db-IsSequential (refl, (refl, tt)) (omega arith)

-- A number that is too large for a port
abbrev start_env : StartEnv
start_env = record {
  device_uuid = "d";
  to_int = λ s. some (pos 65600);
  opens = λ s. true;
  can_listen = λ p. true;
  server_only = true;
  locale_name = "zh_CN";
  has_prefix = λ s t. true;
  page_loads = true;
  exe = "/usr/bin/FreeKill";
  home = "/home/a";
  fk_ver = λ s. none;
  version = "0.5";
}

abbrev options : Options
options = record { version = false; help = false; server = some "65600" }

freekill_main-port_example :
    (port : ℕ) × (freekill_main start_env options
      ≡ (if true then serves port else aborts "cannot listen on port %d!"))
    × (port < 65536)
    × PortFor (some (pos 65600)) port
freekill_main-port_example =
    freekill_main-port start_env options "65600" refl refl refl refl refl refl

sixty_four : freekill_main start_env options ≡ serves 64
unfolding freekill_main start_server
sixty_four = refl

one_of_each : format_ms_duration 90061005 ≡ days 1 ∷ hours 1 ∷ minutes 1 ∷ seconds 1 5 ∷ []
unfolding format_ms_duration
one_of_each = refl

abbrev a_row : Row
a_row = ("id", some "1") ∷ ("name", none) ∷ ("id", some "2") ∷ []

select_json-column_value_example : get (at (select_json ([] ∷ a_row ∷ [])) 1) "id" ≡ str "2"
select_json-column_value_example = select_json-column_value ([] ∷ a_row ∷ []) 1 a_row "id" refl

-- Room 7, abandoned while Lua holds one reference
abbrev held : World
held = set_room waiting 7 (record (waiting.room 7) { lua_ref_count = pos 1; abandoned = true })

abbrev still_held : World
still_held = change_refs (on_room_abandoned held 7) 7 (hold ∷ release ∷ [])

abandoned_room_deleted_example :
    (count 7 still_held.deleted_rooms ≡ 0)
    × (count 7 (decrease_ref_count still_held 7).deleted_rooms ≡ 1)
abandoned_room_deleted_example =
    abandoned_room_deleted held 7 0 (hold ∷ release ∷ []) refl refl refl

-- ===== src/Backend.antt =====
-- The QML back end of the client (src/ui/qmlbackend.cpp): its files, the search for servers over
-- UDP, sounds, and the control of a replay. Discovery sets the search against the server's
-- ServerSocket, Numbered is about sounds. Windows, the clipboard and dialogs are left out.
pub mod Discovery
pub mod Numbered
use free_kill.Base.{
  ℕ, zero, suc, ◌+◌, ◌-◌, ◌%◌, String, Bool, true, false, Option, none, some, List, [], ◌∷◌, ◌++◌,
  ◌==◌, nat_eq, int_eq, string_eq, contains, if◌then◌else◌,
}
use free_kill.Base.Int.{ℤ, pos, negsuc, ◌+ℤ◌}
use free_kill.ClientSocket.{Bytes}
use free_kill.Client.{Client}
use free_kill.Json.{Json, obj, num, Fields, field, end, array, as_array}
use free_kill.Replayer.{Replayer, toggle, speed_up, slow_down, uniform, shutdown}
use free_kill.ServerSocket.{same_bytes, Datagram, ascii}

-- The answers of the name services: QHostInfo::lookupHost, and the first SRV record of QDnsLookup.
pub data Lookup : Type 0 where
  found : String → Lookup  -- the first address
  not_found other_error : Lookup

pub record BackendEnv : Type 0 where
  pub to_latin1 : String → Bytes
  pub to_utf8 : String → Bytes
  pub print_port : ℕ → Bytes  -- QString(",%1").arg(port)
  pub is_address : String → Bool  -- not QHostAddress(text).isNull()
  pub lookup_host : String → Lookup
  pub lookup_srv : String → Option (String × ℕ)  -- target and port
  pub has_colon : String → Bool
  pub parse : Bytes → Option Json  -- QJsonDocument::fromJson
  pub print_json : Json → Bytes  -- JsonArray2Bytes
  pub file_name : String → ℤ → String  -- name + QString::number(i) + ".mp3"
  pub plain_name : String → String  -- name + ".mp3"

-- The files of the working directory
abbrev pub Files : Type 0
Files = String → Option Bytes

abbrev pub write_file : Files → String → Bytes → Files
write_file files name content n = if name == n then some content else files n

-- getPublicServerList, loadConf, loadTips: a file that is not there is made, with what it shows then.
pub load_or_create : Files → String → Bytes → Bytes × Files
load_or_create files name init_conf = elim (files name) [
  | some content ↦ (content, files)
  | none ↦ (init_conf, write_file files name init_conf)
]

pub load_conf : Files → Bytes × Files
load_conf files = load_or_create files "freekill.client.config.json" (ascii "{}")

pub get_public_server_list : Files → Bytes × Files
get_public_server_list files = load_or_create files "server-list.json" (ascii "{}")

pub load_tips : BackendEnv → Files → Bytes × Files
load_tips env files = load_or_create files "waiting_tips.txt" (env.to_utf8 "转啊~ 转啊~")

pub save_conf : BackendEnv → Files → String → Files
save_conf env files conf = write_file files "freekill.client.config.json" (env.to_utf8 conf)

pub detect_server : Datagram
detect_server = record {
  content = ascii "fkDetectServer";
  address = "255.255.255.255";
  port = 9527;
}

-- "fkGetDetail," with the address and the port as they were asked for
unfoldable pub question : BackendEnv → String → ℕ → Bytes
question env address port = ascii "fkGetDetail," ++ (env.to_latin1 address ++ env.print_port port)

abbrev pub send_to : Bytes → Lookup → ℕ → List Datagram
send_to ask (found a) port = record { content = ask; address = a; port = port } ∷ []
send_to ask not_found port = []
send_to ask other_error port = []

-- A host that is not found is looked for by its SRV record, which names another host and a port.
pub ask_srv : BackendEnv → Bytes → Option (String × ℕ) → List Datagram
ask_srv env ask none = []
ask_srv env ask (some (target, port)) = send_to ask (env.lookup_host target) port

pub ask_host : BackendEnv → Bytes → String → ℕ → Lookup → List Datagram
unfolding ask_srv
ask_host env ask address port (found a) = send_to ask (found a) port
ask_host env ask address port not_found =
    if env.has_colon address then [] else ask_srv env ask (env.lookup_srv address)
ask_host env ask address port other_error = []

-- getServerInfo: what is sent once all look-ups have answered
unfoldable pub get_server_info : BackendEnv → String → ℕ → List Datagram
unfolding ask_host
get_server_info env address port =
    let ask = question env address port in
    if env.is_address address
    then record { content = ask; address = address; port = port } ∷ []
    else ask_host env ask address port (env.lookup_host address)

-- What the user interface is told.
pub data UiNote : Type 0 where
  server_detected : String → UiNote
  get_server_detail : Bytes → UiNote

-- readPendingDatagrams, for one that came from the address
unfoldable pub read_datagram : BackendEnv → Bytes → String → UiNote
read_datagram env content sender =
    if same_bytes content (ascii "me")
    then server_detected sender
    else get_server_detail (env.print_json (as_array (env.parse content)))

-- The loop of playSound: from `i` on, the number of the last file before the first that is missing;
-- none stands for fuel that has run out.
unfoldable pub count_files : ℕ → (ℕ → Bool) → ℕ → Option ℕ
count_files zero exists i = none
count_files (suc fuel) exists i =
    let rest = count_files fuel exists (suc i) in if exists i then rest else some (i - 1)

abbrev pub chosen : ℕ → ℕ → ℕ
chosen zero generated = 0
chosen (suc n) generated = suc (generated % suc n)

-- The file of an index
abbrev pub sound_file : BackendEnv → String → ℤ → String
sound_file env name index = if index == pos 0 then env.plain_name name else env.file_name name index

abbrev pub play_file : List String → String → Option String
play_file files fname = if contains files fname then some fname else none

-- The random choice among the files that the loop has counted
abbrev pub play_one : BackendEnv → List String → String → ℕ → Option ℕ → Option (Option String)
play_one env files name generated none = none
play_one env files name generated (some i) =
    some (play_file files (sound_file env name (pos (chosen i generated))))

-- playSound: the file that is played, if any; no answer at all if the fuel does not suffice.
unfoldable pub play_sound : ℕ → BackendEnv → List String → String → ℤ → ℕ → Option (Option String)
play_sound fuel env files name index generated =
    if index == negsuc 0
    then play_one env files name generated
        (count_files fuel (λ i. contains files (env.file_name name (pos i))) 1)
    else some (play_file files (sound_file env name index))

-- controlReplayer, the signals being connected to the replayer that is playing
pub control_replayer : Option Replayer → String → Option Replayer
control_replayer none type = none
control_replayer (some r) type = some (
    if type == "toggle"
    then toggle r
    else if type == "speedup"
    then speed_up r
    else if type == "slowdown"
    then slow_down r
    else if type == "uniform"
    then uniform r
    else if type == "shutdown"
    then shutdown r
    else r)

-- getRequestData: the server's time stamp is moved by the lag.
pub get_request_data : Client → Json
get_request_data c = obj (
    field "id" (num c.router.request_id) (
      field "timeout" (num c.router.request_timeout)
        (field "timestamp" (num (◌+ℤ◌ c.router.request_timestamp c.server_lag)) end)))

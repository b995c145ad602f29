-- ===== src/Server/Rooms.antt =====
-- Rooms as the server keeps them: createRoom, updateRoomList, setupPlayer and refreshMd5
-- (src/server/server.cpp), with the constructors of Room and RoomThread.
use free_kill.Server.Ban
use free_kill.Base.{
  if◌then◌else◌, length, is_empty, ◌==◌, nat_eq, string_eq, int_eq, remove_one, ℕ, suc, String,
  Bool, false, not, ◌&&◌, Option, none, some, List, [], ◌∷◌, ◌++◌, reverse,
}
use free_kill.Base.Int.{ℤ, pos, negsuc}
use free_kill.Json.{array, get, fields_json, Json, bool, num, str}
use free_kill.World.{set_room, set_thread, setting, Room, RoomThread, World, Env, text, json}
use free_kill.World.Notify.{do_notify, do_broadcast_notify}
use free_kill.Room.Basics.{is_full, set_owner, is_outdated, thread_is_full, thread_is_outdated}
use free_kill.Room.Joining.{add_player}
use free_kill.Room.Commands.{turn_out}
use free_kill.ServerPlayer.Disconnect.{kick}

-- new RoomThread(this): its capacity is read from the configuration, or 200.
abbrev thread_capacity : Json → ℤ
thread_capacity (num n) = n
thread_capacity _ = pos 200

unfoldable pub new_thread : World → World
new_thread w =
    let t : RoomThread = record {
      capacity = thread_capacity (Ban.get_config w "roomCountPerThread");
      md5 = w.md5;
      rooms = [];
    } in
    record (set_thread w w.next_thread t) {
      next_thread = suc w.next_thread;
      threads = w.threads ++ w.next_thread ∷ [];
    }

-- The first thread that is neither full nor outdated; asking marks the outdated ones on the way.
unfoldable pub find_thread : World → List ℕ → Option ℕ × World
find_thread w [] = (none, w)
find_thread w (t ∷ ts) =
    let (old, w₁) = thread_is_outdated w t in
    let rest = find_thread w ts in
    let later = find_thread w₁ ts in
    if thread_is_full (w.thread t) then rest else if old then later else (some t, w₁)

-- new Room(thread), with the values that createRoom sets
abbrev new_room : World → ℕ → String → ℤ → ℤ → String → Room
new_room w t name capacity timeout settings = record {
  id = pos w.next_room_id;
  thread = t;
  name = name;
  capacity = capacity;
  settings = settings;
  abandoned = false;
  owner = none;
  runned_players = [];
  rejected_players = [];
  robot_id = negsuc 1;
  game_started = false;
  timeout = timeout;
  md5 = (w.thread t).md5;
  lua_ref_count = pos 0;
  inside_game_over = false;
  request_timer = none;
  players = [];
  observers = [];
}

-- Room, map entry and thread's child; the address of the room is its id.
unfoldable pub insert_room : World → ℕ → String → ℤ → ℤ → String → World
insert_room w t name capacity timeout settings =
    let r = w.next_room_id in
    let w₁ = set_room w r (new_room w t name capacity timeout settings) in
    let w₂ = set_thread w₁ t (record (w₁.thread t) { rooms = (w₁.thread t).rooms ++ r ∷ [] }) in
    record w₂ { rooms = w₂.rooms ++ r ∷ []; next_room_id = suc r }

abbrev pub refuse_name : World → Option ℕ → World
refuse_name w none = w
refuse_name w (some p) = do_notify w p "ErrorMsg" (text "unk error")

-- The thread for a new room.
abbrev pub with_thread : Option ℕ × World → ℕ × World
with_thread (some t, w) = (t, w)
with_thread (none, w) = (w.next_thread, new_thread w)

unfoldable pub create_room : Env → World → Option ℕ → String → ℤ → ℤ → String → World
create_room env w owner name capacity timeout settings =
    if not (Ban.check_ban_word w name)
    then refuse_name w owner
    else (let (t, w₁) = with_thread (find_thread w w.threads) in
        let r = w₁.next_room_id in
        let w₂ = insert_room w₁ t name capacity timeout settings in
        set_owner (add_player env w₂ r owner) r owner)

-- One line of the room list; isOutdated may mark the room.
unfoldable pub describe : Env → World → ℕ → Json × World
describe env w r =
    let room = w.room r in
    let (old, w₁) = is_outdated w r in
    (
      array (
          num room.id
          ∷ str room.name
          ∷ get (fields_json (env.from_json room.settings)) "gameMode"
          ∷ num (pos (length room.players))
          ∷ num room.capacity
          ∷ bool (not (setting env room.settings "password" == ""))
          ∷ bool old
          ∷ []),
      w₁,
    )

-- Full rooms in order; the others are put in front of the list one by one.
unfoldable pub list_rooms : Env → World → List Json → List Json → List ℕ → List Json × World
list_rooms env w full open_ [] = (reverse open_ ++ full, w)
list_rooms env w full open_ (r ∷ rs) =
    let (line, w₁) = describe env w r in
    if is_full (w.room r)
    then list_rooms env w₁ (full ++ line ∷ []) open_ rs
    else list_rooms env w₁ full (open_ ++ line ∷ []) rs

unfoldable pub update_room_list : Env → World → ℕ → World
update_room_list env w teller =
    let (lines, w₁) = list_rooms env w [] [] w.rooms in
    do_notify w₁ teller "UpdateRoomList" (json (array lines))

unfoldable pub setup_player : World → ℕ → Bool → World
setup_player w p all_info =
    let v = w.player p in
    let w₁ =
      do_notify w p "Setup"
        (json (array (num v.id ∷ str v.screen_name ∷ str v.avatar ∷ num (pos w.clock) ∷ []))) in
    if all_info
    then do_notify w₁ p "SetServerSettings" (
        json (
          array (
            Ban.get_config w "motd"
            ∷ Ban.get_config w "hiddenPacks"
            ∷ Ban.get_config w "enableBots"
            ∷ [])))
    else w₁

-- The first loop of refreshMd5: players of outdated rooms are turned out, or told.
unfoldable pub refresh_rooms : Env → World → List ℕ → World
refresh_rooms env w [] = w
refresh_rooms env w (r ∷ rs) =
    let (old, w₁) = is_outdated w r in
    let w₂ =
      if not old
      then w₁
      else if not (w₁.room r).game_started
      then turn_out env w₁ (w₁.room r).players
      else do_broadcast_notify w₁ (w₁.room r).players "GameLog"
          (text "{\"type\":\"#RoomOutdated\",\"toast\":true}") in
    refresh_rooms env w₂ rs

-- The second loop: outdated threads without rooms go.
unfoldable pub refresh_threads : World → List ℕ → World
refresh_threads w [] = w
refresh_threads w (t ∷ ts) =
    let (old, w₁) = thread_is_outdated w t in
    let w₂ =
      if old && is_empty (w₁.thread t).rooms
      then record w₁ { threads = remove_one w₁.threads t }
      else w₁ in
    refresh_threads w₂ ts

abbrev pub kick_all : Env → World → List ℕ → World
kick_all env w [] = w
kick_all env w (p ∷ ps) = kick_all env (kick env w p) ps

-- refreshMd5, with the sum that calcFileMD5 computes
unfoldable pub refresh_md5 : Env → World → String → World
refresh_md5 env w sum =
    let w₁ = refresh_rooms env (record w { md5 = sum }) w.rooms in
    let w₂ = refresh_threads w₁ w₁.threads in kick_all env w₂ w₂.lobby_players

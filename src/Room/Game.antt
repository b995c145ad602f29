-- ===== src/Room/Game.antt =====
-- Room::manuallyStart and gameOver (src/server/room.cpp).
use Prim.Native.String
use free_kill.Server.Ban
use free_kill.Base.{
  leb, if◌then◌else◌, length, ◌==◌, nat_eq, string_eq, int_eq, ℕ, ◌+◌, String, true, false, not,
  ◌&&◌, Option, none, some, List, [], ◌∷◌, ◌++◌,
}
use free_kill.Base.Int.{is_positive, is_negative, ℤ, pos, negsuc}
use free_kill.Json.{array, num}
use free_kill.Player.{state_beq, add_total_game_time, offline}
use free_kill.World.{
  set_base, set_room, is_online, setting, Payload, World, Env, text, json, pushes_request,
}
use free_kill.World.Notify.{do_notify, do_broadcast_notify}
use free_kill.Room.Basics.{is_full, get_other_players, signal}
use free_kill.Room.Stats.{add_run_rate}
use free_kill.ServerPlayer.Status.{start_game_timer, get_game_time, set_ready}

-- QMap<QString, QStringList>: `map[k].append(v)`, in the order of the keys
pub append_to : Env → String → String → List (String × List String) → List (String × List String)
append_to env k v [] = (k, v ∷ []) ∷ []
append_to env k v ((j, vs) ∷ m) =
    if j == k
    then (j, vs ++ v ∷ []) ∷ m
    else if env.less k j
    then (k, v ∷ []) ∷ (j, vs) ∷ m
    else (j, vs) ∷ append_to env k v m

-- ServerPlayer::getPeerAddress, for the player that the server has under the id
abbrev address_at : World → Option ℕ → String
address_at w none = ""
address_at w (some s) = (w.sock s).peer_address

abbrev address_if_online : World → Option ℕ → String
address_if_online w none = ""
address_if_online w (some p) =
    if not (is_online (w.player p).state) then "" else address_at w (w.player p).socket

pub get_peer_address : World → ℤ → String
get_peer_address w i = address_if_online w (Ban.find_player w i)

abbrev pub Lists : Type 0
Lists = List (String × List String)

abbrev pub add_if : Env → String → String → Lists → Lists
add_if env k v m = if k == "" then m else append_to env k v m

abbrev pub make_ready : World → ℕ → World
make_ready w p =
    let w₁ = set_ready w p false in
    start_game_timer (set_base w₁ p (record (w₁.player p).base { died = false })) p

-- The first loop of manuallyStart: everybody is made ready; devices and addresses are gathered.
unfoldable pub prepare : Env → World → Lists → Lists → List ℕ → World × Lists × Lists
prepare env w uuids ips [] = (w, uuids, ips)
prepare env w uuids ips (p ∷ ps) =
    let w₁ = make_ready w p in
    let v = w₁.player p in
    if is_negative v.id
    then prepare env w₁ uuids ips ps
    else prepare env w₁ (add_if env v.uuid v.screen_name uuids)
        (add_if env (get_peer_address w₁ v.id) v.screen_name ips) ps

abbrev join : List String → String
join [] = ""
join (s ∷ []) = s
join (s ∷ t ∷ ss) = Prim.Native.String.◌++◌ s (Prim.Native.String.◌++◌ ", " (join (t ∷ ss)))

-- A warning for each key that several players share.
unfoldable pub warn_shared : World → ℕ → String → Lists → World
warn_shared w r label [] = w
warn_shared w r label ((k, names) ∷ m) =
    warn_shared
      (if leb (length names) 1
        then w
        else do_broadcast_notify w (w.room r).players "ServerMessage"
            (text (Prim.Native.String.◌++◌ label (Prim.Native.String.◌++◌ (join names) "]"))))
      r label m

unfoldable pub manually_start : Env → World → ℕ → World
manually_start env w r =
    if is_full (w.room r) && not (w.room r).game_started
    then (let (w₁, uuids, ips) = prepare env w [] [] (w.room r).players in
        let w₂ = warn_shared w₁ r "*WARN* Same IP address: [" ips in
        let w₃ = warn_shared w₂ r "*WARN* Same device id: [" uuids in
        let w₄ = set_room w₃ r (record (w₃.room r) { game_started = true }) in
        signal w₄ (w₄.room r).thread (pushes_request (negsuc 0) (w₄.room r).id "newroom"))
    else w

-- UPDATE usergameinfo SET totalGameTime = totalGameTime + t; a row without a value counts from 0
pub add_time : List (ℤ × ℕ) → ℤ → ℕ → List (ℤ × ℕ)
add_time [] i t = []
add_time ((j, n) ∷ rows) i t = (j, (if j == i then n + t else n)) ∷ add_time rows i t

-- One player in the first loop of gameOver, which writes to the database only.
unfoldable pub record_game : String → World → ℕ → World
record_game mode w p =
    let v = w.player p in
    let w₁ =
      if is_positive v.id
      then record w {
        db = record w.db { game_time = add_time w.db.game_time v.id (get_game_time w p) };
      }
      else w in
    if state_beq v.state offline then add_run_rate w₁ v.id mode else w₁

unfoldable pub record_games : String → World → List ℕ → World
record_games mode w [] = w
record_games mode w (p ∷ ps) = record_games mode (record_game mode w p) ps

abbrev pub tell_time : World → Option ℕ → ℕ → Payload → World
tell_time w none t body = w
tell_time w (some q) t body =
    do_notify (set_base w q (add_total_game_time (w.player q).base t)) q "AddTotalGameTime" body

-- One player in the second loop: times are told, a player who is offline is banned.
unfoldable pub dismiss : Env → World → ℕ → ℕ → World
dismiss env w r p =
    let v = w.player p in
    let t = get_game_time w p in
    let body = json (array (num v.id ∷ num (pos t) ∷ [])) in
    let w₁ =
      if is_positive v.id
      then (let w₀ =
            do_broadcast_notify w (get_other_players (w.room r) p) "AddTotalGameTime" body in
          tell_time w₀ (Ban.find_player w₀ v.id) t body)
      else w in
    if state_beq (w₁.player p).state offline then Ban.temporarily_ban env w₁ v.id else w₁

-- The second loop, with the players who are to be deleted.
unfoldable pub dismiss_all : Env → World → ℕ → List ℕ → World × List ℕ
dismiss_all env w r [] = (w, [])
dismiss_all env w r (p ∷ ps) =
    let gone = not (is_online (w.player p).state) in
    let (w', ds) = dismiss_all env (dismiss env w r p) r ps in (w', (if gone then p ∷ ds else ds))

abbrev pub delete_all : World → List ℕ → World
delete_all w ds = record w { deleted = w.deleted ++ ds }

unfoldable pub game_over : Env → World → ℕ → World
game_over env w r =
    if not (w.room r).game_started
    then w
    else (let over = record (w.room r) {
      inside_game_over = true;
      game_started = false;
      runned_players = [];
    } in
        let w₁ = set_room w r over in
        let w₂ = record_games (setting env (w.room r).settings "gameMode") w₁ (w.room r).players in
        let (w₃, ds) = dismiss_all env w₂ r (w.room r).players in
        let w₄ = delete_all w₃ ds in
        set_room w₄ r (record (w₄.room r) { inside_game_over = false }))

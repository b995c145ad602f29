-- ===== src/Room/Leaving.antt =====
-- Room::removePlayer (src/server/room.cpp).
use free_kill.Lobby.Members
use free_kill.Server.Ban
use free_kill.Base.{
  if◌then◌else◌, is_empty, nat_eq, string_eq, int_eq, contains, remove_one, ℕ, true, false, not,
  ◌&&◌, Option, none, some, List, [], ◌∷◌, ◌++◌,
}
use free_kill.Json.{array, num}
use free_kill.Player.{new_player, online, run}
use free_kill.World.{set_player, set_room, fault, ServerPlayer, World, Env, in_room, json}
use free_kill.World.Notify.{do_broadcast_notify}
use free_kill.Room.Basics.{is_abandoned, set_owner, on_room_abandoned}
use free_kill.ServerPlayer.Status.{set_state, set_ready}
use free_kill.Room.Observers.{remove_observer}
use free_kill.Room.Joining.{new_server_player, create, is_owner}

-- Before the game: the player gives up the seat and goes back to the lobby.
unfoldable pub leave_seat : World → ℕ → ℕ → World
leave_seat w r p =
    let w₁ =
      if contains (w.room r).players p && not (is_empty (w.room r).players)
      then (let w₀ = set_ready w p false in
          set_room w₀ r (record (w₀.room r) { players = remove_one (w₀.room r).players p }))
      else w in
    let w₂ = Members.add_player w₁ p in
    do_broadcast_notify w₂ (w₂.room r).players "RemovePlayer"
      (json (array (num (w₂.player p).id ∷ [])))

-- The object that carries on for a player who ran away.
abbrev pub runner_of : ServerPlayer → Option ℕ → ℕ → ServerPlayer
runner_of v s r = record (new_server_player (in_room r)) {
  base = record new_player {
    id = v.id;
    screen_name = v.screen_name;
    avatar = v.avatar;
    state = online;
    total_games = v.total_games;
    win_count = v.win_count;
    run_count = v.run_count;
    total_game_time = v.total_game_time;
  };
  socket = s;
}

abbrev pub need_socket : World → Option ℕ → World
need_socket w none = fault w
need_socket w (some s) = w

-- The runaway keeps the seat, without a socket. `removeSocket` reads the socket, which may be null.
unfoldable pub give_up_socket : World → ℕ → ℕ → World
give_up_socket w r p =
    let s = (w.player p).socket in
    let w₁ = set_state w p run in
    let w₂ = need_socket w₁ s in
    let w₃ = set_player w₂ p (record (w₂.player p) { socket = none }) in
    if not (w.player p).died
    then set_room w₃ r
        (record (w₃.room r) { runned_players = (w₃.room r).runned_players ++ (w.player p).id ∷ [] })
    else w₃

-- During the game: a new object takes the socket to the lobby, and the address is banned for a while.
unfoldable pub run_away : Env → World → ℕ → ℕ → World
run_away env w r p =
    let v = w.player p in
    let w₀ = give_up_socket w r p in
    let runner = w₀.next_player in
    let w₁ = create w₀ (runner_of v v.socket r) in
    let w₂ = Members.add_player (Ban.add_player w₁ runner) runner in
    if not env.client_instance && not v.died then Ban.temporarily_ban env w₂ v.id else w₂

-- players.first(); an empty list would be a fault.
abbrev pub first_player : World → ℕ → List ℕ → World
first_player w r [] = fault w
first_player w r (p ∷ ps) = set_owner w r (some p)

-- An abandoned room is marked, loses its owner and says so if it has not before.
unfoldable pub abandon : World → ℕ → World
abandon w r =
    let w₁ = set_owner (set_room w r (record (w.room r) { abandoned = true })) r none in
    if not (w.room r).abandoned then on_room_abandoned w₁ r else w₁

-- The end of removePlayer: a room without its owner gets another.
unfoldable pub settle : World → ℕ → ℕ → World
settle w r p =
    if is_abandoned w (w.room r)
    then abandon w r
    else if is_owner (w.room r).owner p
    then first_player w r (w.room r).players
    else w

unfoldable pub remove_player : Env → World → ℕ → ℕ → World
remove_player env w r p =
    if contains (w.room r).observers p
    then remove_observer w r p
    else if not (w.room r).game_started
    then settle (leave_seat w r p) r p
    else settle (run_away env w r p) r p

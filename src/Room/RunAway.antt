-- ===== src/Room/RunAway.antt =====
-- A player who leaves the room during a game: removePlayer of src/server/room.cpp as a whole.
use free_kill.Server.Ban
use free_kill.Base.{
  if◌then◌else◌, Bool-cases, ◌==◌, nat_eq, string_eq, int_eq, contains, ℕ, String, ◌≡◌, ap, ap₂,
  ◌∙◌, inl, inr, Bool, true, false, not, ◌&&◌, some, [], ◌∷◌, ◌++◌,
}
use free_kill.Database.{find_column}
use free_kill.Player.{online}
use free_kill.World.{lobby, ServerPlayer, World, Env}
use free_kill.Room.Leaving.{run_away, settle, remove_player}
use free_kill.Room.Ownership.{settle-Settled}
use free_kill.Room.Handover.{
  runner, handed_over, handed_over-HandedOver, settle-SamePeople, banned_lem, HandedOver,
}
use free_kill.ServerPlayer.Apart.{Apart}

HandedOver-Apart :
    {w u v : World} {r p : ℕ}
    → (w.next_player == p) ≡ false
    → HandedOver w r p u
    → Apart u w.next_player v
    → HandedOver w r p v
unfolding Ban.find_player
HandedOver-Apart {w} {u} {v} {r} {p} n h a = record {
  same_seats = ap (λ f. (f r).players) a.same_room ∙ h.same_seats;
  runs = ap (λ q. q.state) (a.others p n) ∙ h.runs;
  no_socket = ap (λ q. q.socket) (a.others p n) ∙ h.no_socket;
  in_lobby = a.same_lobby ∙ h.in_lobby;
  mapped = ap (λ m. find_column m (w.player p).id) a.same_players ∙ h.mapped;
  placed = a.same_place ∙ h.placed;
}

HandedOver-settle : {w u : World} {r p : ℕ} → HandedOver w r p u → HandedOver w r p (settle u r p)
unfolding Ban.find_player
HandedOver-settle {w} {u} {r} {p} h =
    let (ps, lob, map_, bans) = settle-SamePeople u r p in
    record {
      same_seats = (settle-Settled u r p).same_players ∙ h.same_seats;
      runs = ap (λ f. (f p).state) ps ∙ h.runs;
      no_socket = ap (λ f. (f p).socket) ps ∙ h.no_socket;
      in_lobby = lob ∙ h.in_lobby;
      mapped = ap (λ m. find_column m (w.player p).id) map_ ∙ h.mapped;
      placed = ap (λ f. (f w.next_player).room) ps ∙ h.placed;
    }

HandedOver-ban :
    {w u : World} {r p : ℕ} (addr : String)
    → HandedOver w r p u
    → HandedOver w r p (Ban.ban_address u addr)
unfolding Ban.ban_address Ban.find_player
HandedOver-ban addr h = record {
  same_seats = h.same_seats;
  runs = h.runs;
  no_socket = h.no_socket;
  in_lobby = h.in_lobby;
  mapped = h.mapped;
  placed = h.placed;
}

-- Whether removePlayer bans a runaway.
abbrev is_banned : Env → ServerPlayer → Bool
is_banned env v = not env.client_instance && not v.died

-- All that is shown of a player who leaves during the game.
run_away_lem :
    (env : Env) (w : World) (r p s : ℕ)
    → contains (w.room r).observers p ≡ false
    → (w.room r).game_started ≡ true
    → (w.player p).socket ≡ some s
    → (w.next_player == p) ≡ false
    → let w' = remove_player env w r p in
      HandedOver w r p w'
      × (is_banned env (w.player p) ≡ false → w'.player w.next_player ≡ runner w p)
      × (w'.temp_banlist ≡ (
          if is_banned env (w.player p)
          then w.temp_banlist ++ (w.sock s).peer_address ∷ []
          else w.temp_banlist))
unfolding remove_player run_away Ban.ban_address
run_away_lem env w r p s o g e n =
    let (h, it, bans, socks) = handed_over-HandedOver w r p s e n in
    let u = handed_over w r p s e n in
    elim (Bool-cases (is_banned env (w.player p))) [
      | inl ban ↦
          let addr = (u.sock s).peer_address in
          let b =
            banned_lem env u w.next_player s (w.player p).id h.mapped (ap (λ v. v.socket) it ∙ e)
              h.placed in
          let v = Ban.temporarily_ban env u (w.player p).id in
          rw (o, g, ban)
            (
              HandedOver-settle (HandedOver-Apart n (HandedOver-ban addr h) b),
              (λ f. cc),
              (settle-SamePeople v r p).3
                  ∙ b.same_bans
                  ∙ ap₂ (λ l f. l ++ (f s).peer_address ∷ []) bans socks,
            )
      | inr free ↦
          rw (o, g, free)
            (
              HandedOver-settle h,
              (λ f. ap (λ q. q w.next_player) (settle-SamePeople u r p).0 ∙ it),
              (settle-SamePeople u r p).3 ∙ bans,
            )
    ]

-- During the game nobody's seat is given up: a player with a socket who leaves (and is no observer,
-- and whose address is not the next free one) keeps the seat in the state `run`, without a socket,
-- and a new object under his id goes to the lobby and into the server's map. His address is banned
-- for a while exactly if he is to be banned.
pub remove_player_in_game :
    (env : Env) (w : World) (r p s : ℕ)
    → contains (w.room r).observers p ≡ false
    → (w.room r).game_started ≡ true
    → (w.player p).socket ≡ some s
    → (w.next_player == p) ≡ false
    → let w' = remove_player env w r p in
      HandedOver w r p w'
      × (w'.temp_banlist ≡ (
          if is_banned env (w.player p)
          then w.temp_banlist ++ (w.sock s).peer_address ∷ []
          else w.temp_banlist))
remove_player_in_game env w r p s o g e n =
    let (h, it, bans) = run_away_lem env w r p s o g e n in (h, bans)

-- The object that carries on for a runaway: his id, name, avatar, numbers of games, time of play and
-- socket, and nothing else of his.
pub record CarriesOn (v q : ServerPlayer) : Type 0 where
  same_id : q.id ≡ v.id
  same_name : q.screen_name ≡ v.screen_name
  same_avatar : q.avatar ≡ v.avatar
  same_games :
      (q.total_games ≡ v.total_games) × (q.win_count ≡ v.win_count) × (q.run_count ≡ v.run_count)
  same_time : q.total_game_time ≡ v.total_game_time
  same_socket : q.socket ≡ v.socket
  is_online : q.state ≡ online
  in_lobby : q.room ≡ lobby
  alive : q.died ≡ false
  not_ready : q.ready ≡ false
  no_uuid : q.uuid ≡ ""

-- ===== src/Room/Handover.antt =====
-- Room::removePlayer of src/server/room.cpp during the game: a seat is never given up.
use free_kill.Lobby.Members
use free_kill.Server.Ban
use free_kill.Lobby.Arrivals.{lobby_add_lem}
use free_kill.Base.{
  if◌then◌else◌, Bool-cases, ◌==◌, nat_eq, string_eq, int_eq, ℕ, ◌≡◌, refl, sym, ap, ap₂, ◌∙◌, inl,
  inr, Bool, true, false, not, none, some, List, [], ◌∷◌, ◌++◌, arith,
}
use free_kill.Player.{online, run}
use free_kill.Database.{find_column}
use free_kill.World.{set_room, ServerPlayer, Room, World, Env, lobby}
use free_kill.World.Notify.{do_broadcast_notify, update_online_info}
use free_kill.Room.Joining.{create, is_owner}
use free_kill.Room.Leaving.{runner_of, give_up_socket, first_player, abandon, settle}
use free_kill.ServerPlayer.Status.{set_state}
use free_kill.ServerPlayer.Frames.{set_state-OnlyStatus}
use free_kill.Base.Int.{int_beq_iff, ℤ}
use free_kill.Room.Basics.{is_abandoned, set_owner, on_room_abandoned}
use free_kill.ServerPlayer.Apart.{kick-Apart, Apart}

-- What the runaway's object keeps: the seat, no socket.
record GaveUp (w : World) (r p : ℕ) (w' : World) : Type 0 where
  same_seats : (q : ℕ) → (w'.room q).players ≡ (w.room q).players
  same_lobby : w'.lobby_players ≡ w.lobby_players
  same_bans : w'.temp_banlist ≡ w.temp_banlist
  same_sock : w'.sock ≡ w.sock
  same_next : w'.next_player ≡ w.next_player
  runs : (w'.player p).state ≡ run
  no_socket : (w'.player p).socket ≡ none

give_up_socket_lem :
    (w : World) (r p s : ℕ) → (w.player p).socket ≡ some s → GaveUp w r p (give_up_socket w r p)
unfolding give_up_socket
give_up_socket_lem w r p s e =
    let (f, st) = set_state-OnlyStatus w p run in
    let rooms : (set_state w p run).room ≡ w.room = ap (λ v. v.room) f.rest in
    elim (Bool-cases (w.player p).died) [
      | inl d ↦
          rw (e, d)
            (record {
              same_seats = λ q. ap (λ g. (g q).players) rooms;
              same_lobby = ap (λ v. v.lobby_players) f.rest;
              same_bans = ap (λ v. v.temp_banlist) f.rest;
              same_sock = ap (λ v. v.sock) f.rest;
              same_next = ap (λ v. v.next_player) f.rest;
              runs = ground (arith, st);
              no_socket = ground arith;
            })
      | inr d ↦
          rw (e, d)
            (record {
              same_seats = λ q. ground (
                arith,
                ap (λ (g : ℕ → Room). (g q).players) rooms,
                ap (λ (g : ℕ → Room). (g r).players) rooms,
              );
              same_lobby = ap (λ v. v.lobby_players) f.rest;
              same_bans = ap (λ v. v.temp_banlist) f.rest;
              same_sock = ap (λ v. v.sock) f.rest;
              same_next = ap (λ v. v.next_player) f.rest;
              runs = ground (arith, st);
              no_socket = ground arith;
            })
    ]

-- What a new object that goes to the lobby finds there.
record Arrived (u : World) (v : ServerPlayer) (w' : World) : Type 0 where
  same_room : w'.room ≡ u.room
  last : w'.lobby_players ≡ u.lobby_players ++ u.next_player ∷ []
  mapped : Ban.find_player w' v.id ≡ some u.next_player
  same_bans : w'.temp_banlist ≡ u.temp_banlist
  same_sock : w'.sock ≡ u.sock
  itself : w'.player u.next_player ≡ record v { room = lobby }
  others : (q : ℕ) → (u.next_player == q) ≡ false → w'.player q ≡ u.player q

abbrev pub arrive : World → ServerPlayer → World
arrive u v = Members.add_player (Ban.add_player (create u v) u.next_player) u.next_player

arrive-Arrived : (u : World) (v : ServerPlayer) → v.state ≡ online → Arrived u v (arrive u v)
unfolding Ban.add_player Ban.find_player find_column
arrive-Arrived u v o =
    let w₁ = Ban.add_player (create u v) u.next_player in
    let here : w₁.player u.next_player ≡ v = ground arith in
    let (ps, room, lob, map_, bans, socks) =
      lobby_add_lem w₁ u.next_player (ground (arith, here, o)) in
    record {
      same_room = room;
      last = lob;
      mapped = ap (λ m. find_column m v.id) map_ ∙ ground (arith, here, int_beq_iff v.id v.id);
      same_bans = bans;
      same_sock = socks;
      itself = ap (λ f. f u.next_player) ps ∙ ground (arith, here);
      others = λ q h. ap (λ f. f q) ps ∙ ground arith;
    }

-- The seat is kept without a socket, and a new object stands in the lobby and in the server's map.
pub record HandedOver (w : World) (r p : ℕ) (w' : World) : Type 0 where
  pub same_seats : (w'.room r).players ≡ (w.room r).players
  pub runs : (w'.player p).state ≡ run
  pub no_socket : (w'.player p).socket ≡ none
  pub in_lobby : w'.lobby_players ≡ w.lobby_players ++ w.next_player ∷ []
  pub mapped : Ban.find_player w' (w.player p).id ≡ some w.next_player
  pub placed : (w'.player w.next_player).room ≡ lobby

-- The runner as he stands in the lobby before a ban.
abbrev pub runner : World → ℕ → ServerPlayer
runner w p = record (runner_of (w.player p) (w.player p).socket 0) { room = lobby }

module _ (w : World) (r p s : ℕ) (e : (w.player p).socket ≡ some s)
    (n : (w.next_player == p) ≡ false) where
  abbrev gave_up : World
  gave_up = give_up_socket w r p

  abbrev pub handed_over : World
  handed_over = arrive gave_up (runner_of (w.player p) (w.player p).socket r)

  pub handed_over-HandedOver :
      HandedOver w r p handed_over
      × (handed_over.player w.next_player ≡ runner w p)
      × (handed_over.temp_banlist ≡ w.temp_banlist)
      × (handed_over.sock ≡ w.sock)
  handed_over-HandedOver =
      let g = give_up_socket_lem w r p s e in
      let a = arrive-Arrived gave_up (runner_of (w.player p) (w.player p).socket r) refl in
      let it : handed_over.player w.next_player ≡ runner w p =
        ap handed_over.player (sym g.same_next) ∙ a.itself in
      let apart : (gave_up.next_player == p) ≡ false = rw g.same_next n in
      (
        record {
          same_seats = ap (λ f. (f r).players) a.same_room ∙ g.same_seats r;
          runs = ap (λ v. v.state) (a.others p apart) ∙ g.runs;
          no_socket = ap (λ v. v.socket) (a.others p apart) ∙ g.no_socket;
          in_lobby = a.last ∙ ap₂ (λ l k. l ++ k ∷ []) g.same_lobby g.same_next;
          mapped = a.mapped ∙ ap some g.same_next;
          placed = ap (λ v. v.room) it;
        },
        it,
        a.same_bans ∙ g.same_bans,
        a.same_sock ∙ g.same_sock,
      )

-- Players, lobby, map and bans are as they were.
abbrev SamePeople : World → World → Type 0
SamePeople w w' =
    (w'.player ≡ w.player)
    × (w'.lobby_players ≡ w.lobby_players)
    × (w'.players ≡ w.players)
    × (w'.temp_banlist ≡ w.temp_banlist)

on_room_abandoned-SamePeople : (w : World) (r : ℕ) → SamePeople w (on_room_abandoned w r)
unfolding on_room_abandoned update_online_info do_broadcast_notify
on_room_abandoned-SamePeople w r = (ground arith, ground arith, ground arith, ground arith)

closed-SamePeople :
    (u : World) (r : ℕ) (before : Bool)
    → SamePeople u (if not before then on_room_abandoned u r else u)
closed-SamePeople u r true = (refl, refl, refl, refl)
closed-SamePeople u r false = on_room_abandoned-SamePeople u r

set_owner-none-SamePeople : (w : World) (r : ℕ) → SamePeople w (set_owner w r none)
unfolding set_owner
set_owner-none-SamePeople w r = (refl, refl, refl, refl)

abandon-SamePeople : (w : World) (r : ℕ) → SamePeople w (abandon w r)
unfolding abandon
abandon-SamePeople w r =
    let w₁ = set_room w r (record (w.room r) { abandoned = true }) in
    let a = set_owner-none-SamePeople w₁ r in
    let b = closed-SamePeople (set_owner w₁ r none) r (w.room r).abandoned in
    (b.0 ∙ a.0, b.1 ∙ a.1, b.2 ∙ a.2, b.3 ∙ a.3)

first_player-SamePeople : (w : World) (r : ℕ) (ps : List ℕ) → SamePeople w (first_player w r ps)
unfolding set_owner do_broadcast_notify
first_player-SamePeople w r [] = (refl, refl, refl, refl)
first_player-SamePeople w r (p ∷ ps) = (refl, refl, refl, refl)

pub settle-SamePeople : (w : World) (r p : ℕ) → SamePeople w (settle w r p)
unfolding settle
settle-SamePeople w r p = elim (Bool-cases (is_abandoned w (w.room r))) [
  | inl gone ↦ rw gone (abandon-SamePeople w r)
  | inr open_ ↦ elim (Bool-cases (is_owner (w.room r).owner p)) [
    | inl mine ↦ rw (open_, mine) (first_player-SamePeople w r (w.room r).players)
    | inr other ↦ rw (open_, other) (refl, refl, refl, refl)
  ]
]

address_lem :
    (w : World) (p s : ℕ) (i : ℤ)
    → (w.player p).socket ≡ some s
    → Ban.address_of w p i ≡ some (w.sock s).peer_address
unfolding Ban.address_of
address_lem w p s i e = rw (e, Ban.address_of)

pub banned_lem :
    (env : Env) (w : World) (n s : ℕ) (i : ℤ)
    → Ban.find_player w i ≡ some n
    → (w.player n).socket ≡ some s
    → (w.player n).room ≡ lobby
    → Apart (Ban.ban_address w (w.sock s).peer_address) n (Ban.temporarily_ban env w i)
unfolding Ban.temporarily_ban
banned_lem env w n s i f e l =
    rw (f, Ban.temporarily_ban, address_lem w n s i e)
      (kick-Apart env (Ban.ban_address w (w.sock s).peer_address) n (unfold Ban.ban_address in l))

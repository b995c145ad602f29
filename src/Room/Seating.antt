-- ===== src/Room/Seating.antt =====
-- What Room::addPlayer (src/server/room.cpp) does to rooms and lobby, on every branch.
use free_kill.Lobby.Members
use free_kill.Base.{
  if◌then◌else◌, nat_beq_iff, Bool-cases, length, length-append, ◌==◌, nat_eq, string_eq, int_eq,
  contains, remove_one, count, count-append, count-remove_one, contains-count-pos, ℕ, ◌+◌, String,
  ◌≡◌, refl, ap, ◌∙◌, inl, inr, Bool, true, false, not, ◌&&◌, ◌||◌, some, List, [], ◌∷◌, ◌++◌,
  arith,
}
use free_kill.Base.Int.{is_positive, leb_ℤ, ℤ, pos, negsuc}
use free_kill.World.{Room, Payload, World, Env, in_room}
use free_kill.World.Notify.{do_notify, do_broadcast_notify, update_online_info}
use free_kill.Room.Basics.{is_full}
use free_kill.Room.Joining.{take_seat, add_player}
use free_kill.Room.Seats.{welcome-SameSeats, SameSeats}

-- In `w'` the player has the last seat of the room and, but for a robot, has left the lobby; no
-- other room and no other player's place has changed.
pub record Seated (w : World) (r p : ℕ) (w' : World) : Type 0 where
  pub last_seat : w'.room r ≡ record (w.room r) { players = (w.room r).players ++ p ∷ [] }
  pub placed : (w'.player p).room ≡ in_room r
  left_lobby :
      w'.lobby_players
      ≡ (if is_positive (w.player p).id then remove_one w.lobby_players p else w.lobby_players)
  pub other_rooms : (q : ℕ) → (r == q) ≡ false → w'.room q ≡ w.room q
  pub other_places : (q : ℕ) → (p == q) ≡ false → (w'.player q).room ≡ (w.player q).room

take_seat-Seated : (w : World) (r p : ℕ) → Seated w r p (take_seat w r p)
unfolding take_seat Members.remove_player update_online_info do_broadcast_notify
take_seat-Seated w r p = record {
  last_seat = ground arith;
  placed = ground arith;
  left_lobby = ground arith;
  other_rooms = λ q h. ground arith;
  other_places = λ q h. ground arith;
}

Seated-after : {w u v : World} {r p : ℕ} → Seated w r p u → SameSeats u v → Seated w r p v
Seated-after {r = r} {p = p} s k = record {
  last_seat = ap (λ f. f r) k.same_room ∙ s.last_seat;
  placed = k.same_place p ∙ s.placed;
  left_lobby = k.same_lobby ∙ s.left_lobby;
  other_rooms = λ q h. ap (λ f. f q) k.same_room ∙ s.other_rooms q h;
  other_places = λ q h. k.same_place q ∙ s.other_places q h;
}

Seated-before :
    {v : World} {r p : ℕ} (w : World) (ps : List ℕ) (c : String) (b : Payload)
    → Seated (do_broadcast_notify w ps c b) r p v
    → Seated w r p v
unfolding do_broadcast_notify
Seated-before w ps c b s = record {
  last_seat = s.last_seat;
  placed = s.placed;
  left_lobby = s.left_lobby;
  other_rooms = s.other_rooms;
  other_places = s.other_places;
}

-- Whether Room::addPlayer lets a player in.
abbrev pub is_welcome : World → ℕ → ℕ → Bool
is_welcome w r p =
    not (contains (w.room r).rejected_players (w.player p).id)
    && not (is_full (w.room r) || (w.room r).game_started)

-- A player who is not rejected by a room that is neither full nor playing takes its last seat and
-- leaves the lobby if his id is positive; other rooms and the places of others stay.
pub add_player-Seated :
    (env : Env) (w : World) (r p : ℕ)
    → is_welcome w r p ≡ true
    → Seated w r p (add_player env w r (some p))
unfolding add_player
add_player-Seated env w r p h =
    let rejected : contains (w.room r).rejected_players (w.player p).id ≡ false = ground arith in
    let shut : (is_full (w.room r) || (w.room r).game_started) ≡ false = ground arith in
    rw (rejected, shut)
      (Seated-before w _ _ _ (Seated-after (take_seat-Seated _ r p) (welcome-SameSeats env _ r p)))

-- If the player is rejected, or the room is full or playing, addPlayer changes nothing but what is
-- sent.
pub add_player_refused :
    (env : Env) (w : World) (r p : ℕ)
    → is_welcome w r p ≡ false
    → add_player env w r (some p) ≡ record w { sent = (add_player env w r (some p)).sent }
unfolding add_player do_notify
add_player_refused env w r p h =
    elim (Bool-cases (contains (w.room r).rejected_players (w.player p).id)) [
      | inl e ↦ rw e
      | inr n ↦
          let shut : (is_full (w.room r) || (w.room r).game_started) ≡ true = ground arith in
          elim (Bool-cases (contains (w.room r).runned_players (w.player p).id)) [
            | inl e ↦ rw (n, shut, e)
            | inr e ↦ rw (n, shut, e)
          ]
    ]

-- A room that holds no more than its capacity.
abbrev pub Fits : Room → Type 0
Fits r = leb_ℤ (pos (length r.players)) r.capacity ≡ true

fits-below :
    (n : ℕ) (c : ℤ) → leb_ℤ (pos n) c ≡ true → (pos n == c) ≡ false → leb_ℤ (pos (n + 1)) c ≡ true
fits-below n (pos c) h e = ground arith
fits-below n (negsuc c) h e = h

-- Whoever asks to come in, and whether he gets in or not, a room that holds no more players than its
-- capacity still does.
pub add_player-Fits :
    (env : Env) (w : World) (r p q : ℕ)
    → Fits (w.room q)
    → Fits ((add_player env w r (some p)).room q)
unfolding is_full
add_player-Fits env w r p q h = elim (Bool-cases (is_welcome w r p)) [
  | inl let_in ↦
      let s = add_player-Seated env w r p let_in in
      elim (Bool-cases (r == q)) [
        | inl e ↦
            let same : r ≡ q = (nat_beq_iff r q).0 e in
            rw (← same) (
              rw (s.last_seat, length-append (w.room r).players (p ∷ []))
                (fits-below (length (w.room r).players) (w.room r).capacity (rw same h)
                  (ground arith)))
        | inr n ↦ rw (s.other_rooms q n) h
      ]
  | inr kept_out ↦ rw (add_player_refused env w r p kept_out) h
]

-- When a player with a positive id who is in the lobby asks to come in, everybody stands as often in
-- the lobby and that room together as before.
pub add_player_conserves :
    (env : Env) (w : World) (r p q : ℕ)
    → is_positive (w.player p).id ≡ true
    → contains w.lobby_players p ≡ true
    → let w' = add_player env w r (some p) in
      count q w'.lobby_players + count q (w'.room r).players
      ≡ count q w.lobby_players + count q (w.room r).players
add_player_conserves env w r p q real here = elim (Bool-cases (is_welcome w r p)) [
  | inl let_in ↦
      let s = add_player-Seated env w r p let_in in
      rw (s.last_seat, s.left_lobby, real, count-append q (w.room r).players (p ∷ []))
        (ground (
          arith,
          count-remove_one w.lobby_players p q,
          contains-count-pos w.lobby_players p q here,
          nat_beq_iff p q,
        ))
  | inr kept_out ↦ rw (add_player_refused env w r p kept_out) refl
]

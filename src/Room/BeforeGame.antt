-- ===== src/Room/BeforeGame.antt =====
-- Room::removePlayer of src/server/room.cpp while no game is running.
use free_kill.Lobby.Members
use free_kill.Base.{
  if◌then◌else◌, Bool-cases, is_empty, nat_eq, string_eq, int_eq, contains, remove_one,
  contains-remove_one_ne, ℕ, ◌≡◌, refl, sym, ap, ◌∙◌, inl, inr, Bool, true, false, not, ◌&&◌,
  Option, none, some, List, arith,
}
use free_kill.World.{set_base, set_room, Place, Room, World, Env, lobby, in_room}
use free_kill.World.Notify.{do_notify, do_broadcast_notify, update_online_info}
use free_kill.Room.Basics.{is_abandoned}
use free_kill.Room.Joining.{is_owner}
use free_kill.Room.Leaving.{leave_seat, settle, remove_player}
use free_kill.Room.Ownership.{NoneOnline, is_abandoned_iff, owner_sits, settle-Settled, Settled}
use free_kill.ServerPlayer.Status.{on_ready_changed, set_ready}

-- The rooms are as they were, and the server lists the same.
abbrev SameRooms : World → World → Type 0
SameRooms w w' = (w'.room ≡ w.room) × (w'.rooms ≡ w.rooms)

on_ready_changed-SameRooms :
    (w : World) (p : ℕ) (place : Place)
    → (w.player p).room ≡ place
    → SameRooms w (on_ready_changed w p)
unfolding on_ready_changed do_broadcast_notify
on_ready_changed-SameRooms w p lobby e = rw (e, on_ready_changed) (refl, refl)
on_ready_changed-SameRooms w p (in_room r) e = rw (e, on_ready_changed) (refl, refl)

set_ready-SameRooms : (w : World) (p : ℕ) (b : Bool) → SameRooms w (set_ready w p b)
unfolding set_ready
set_ready-SameRooms w p b =
    on_ready_changed-SameRooms (set_base w p (record (w.player p).base { ready = b })) p _ refl

lobby_add-SameRooms : (w : World) (p : ℕ) → SameRooms w (Members.add_player w p)
unfolding Members.add_player Members.remove_player do_notify update_online_info do_broadcast_notify
lobby_add-SameRooms w p = (ground arith, ground arith)

-- The seats that are left.
abbrev rest_of : List ℕ → ℕ → List ℕ
rest_of ps p = if contains ps p && not (is_empty ps) then remove_one ps p else ps

leave_seat_lem :
    (w : World) (r p : ℕ)
    → ((leave_seat w r p).room r ≡ record (w.room r) { players = rest_of (w.room r).players p })
      × ((leave_seat w r p).rooms ≡ w.rooms)
unfolding leave_seat do_broadcast_notify
leave_seat_lem w r p =
    elim (Bool-cases (contains (w.room r).players p && not (is_empty (w.room r).players))) [
      | inl sits ↦
          let w₀ = set_ready w p false in
          let (same, list) = set_ready-SameRooms w p false in
          let w₁ =
            set_room w₀ r (record (w₀.room r) { players = remove_one (w₀.room r).players p }) in
          let (same', list') = lobby_add-SameRooms w₁ p in
          rw sits
            (ap (λ f. f r) same' ∙ ground (arith, ap (λ (f : ℕ → Room). f r) same), list' ∙ list)
      | inr out ↦
          let (same', list') = lobby_add-SameRooms w p in rw out (ap (λ f. f r) same', list')
    ]

-- Who still owns the room sits in it.
owner_stays :
    (o : Option ℕ) (ps : List ℕ) (p : ℕ)
    → is_owner o p ≡ false
    → owner_sits o ps ≡ true
    → owner_sits o (rest_of ps p) ≡ true
owner_stays none ps p n h = refl
owner_stays (some o) ps p n h = elim (Bool-cases (contains ps p && not (is_empty ps))) [
  | inl sits ↦ rw sits (contains-remove_one_ne ps p o n h)
  | inr out ↦ rw out h
]

Settled-owner :
    (w : World) (r p : ℕ) (w' : World)
    → Settled w r p w'
    → (is_owner (w.room r).owner p ≡ false → owner_sits (w.room r).owner (w.room r).players ≡ true)
    → owner_sits (w'.room r).owner (w'.room r).players ≡ true
Settled-owner w r p w' s h = elim (Bool-cases (is_abandoned w (w.room r))) [
  | inl gone ↦ rw (s.same_players, s.ownerless gone) refl
  | inr open_ ↦ elim (Bool-cases (is_owner (w.room r).owner p)) [
    | inl mine ↦ rw s.same_players (s.inherited open_ mine)
    | inr other ↦ rw (s.same_players, s.stays open_ other) (h other)
  ]
]

-- Before the game a player who leaves gives up the first seat that is his, and a room whose owner
-- sat in it (or that had none) keeps an owner who sits in it, or has none.
pub remove_player_before_game :
    (env : Env) (w : World) (r p : ℕ)
    → contains (w.room r).observers p ≡ false
    → (w.room r).game_started ≡ false
    → owner_sits (w.room r).owner (w.room r).players ≡ true
    → let w' = remove_player env w r p in
      ((w'.room r).players ≡ rest_of (w.room r).players p)
      × (owner_sits (w'.room r).owner (w'.room r).players ≡ true)
unfolding remove_player
remove_player_before_game env w r p o g h =
    let w₁ = leave_seat w r p in
    let (left, list) = leave_seat_lem w r p in
    let s = settle-Settled w₁ r p in
    rw (o, g)
      (
        s.same_players ∙ ap (λ v. v.players) left,
        Settled-owner w₁ r p (settle w₁ r p) s (λ n. rw left (
            owner_stays (w.room r).owner (w.room r).players p
              (sym (ap (λ v. is_owner v.owner p) left) ∙ n) h)),
      )

-- The first time that nobody in the room is online after a player has left, the server forgets the
-- room; it is marked, and has no owner.
remove_player_abandons :
    (env : Env) (w : World) (r p : ℕ)
    → contains (w.room r).observers p ≡ false
    → (w.room r).game_started ≡ false
    → (w.room r).abandoned ≡ false
    → NoneOnline (leave_seat w r p) (rest_of (w.room r).players p)
    → let w' = remove_player env w r p in
      ((w'.room r).abandoned ≡ true)
      × ((w'.room r).owner ≡ none)
      × (w'.rooms ≡ remove_one w.rooms r)
unfolding remove_player
remove_player_abandons env w r p o g a quiet =
    let w₁ = leave_seat w r p in
    let (left, list) = leave_seat_lem w r p in
    let s = settle-Settled w₁ r p in
    let gone : is_abandoned w₁ (w₁.room r) ≡ true =
      (is_abandoned_iff w₁ (w₁.room r)).1 (rw left quiet) in
    rw (o, g)
      (
        s.marked ∙ ground (arith, gone),
        s.ownerless gone,
        s.listed ∙ ground (arith, gone, list, ap (λ (v : Room). v.abandoned) left),
      )

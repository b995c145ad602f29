-- ===== src/Room/Ownership.antt =====
-- The owner of a room and the end of a room, after Room::removePlayer before the game
-- (src/server/room.cpp).
use free_kill.Base.{
  if◌then◌else◌, Bool-cases, is_empty, nat_eq, string_eq, int_eq, contains, remove_one, ℕ, ◌≡◌,
  refl, ap, ◌∙◌, ◌↔◌, inl, inr, Bool, true, false, not, ◌&&◌, ◌||◌, Option, none, some, List, [],
  ◌∷◌, arith,
}
use free_kill.World.{set_room, is_online, Room, World}
use free_kill.World.Notify.{do_broadcast_notify, update_online_info}
use free_kill.Room.Basics.{any_online, is_abandoned, set_owner, on_room_abandoned}
use free_kill.Room.Joining.{is_owner}
use free_kill.Room.Leaving.{first_player, abandon, settle}

-- No player of the list is online.
abbrev pub NoneOnline : World → List ℕ → Type 0
NoneOnline w [] = Unit
NoneOnline w (p ∷ ps) = (is_online (w.player p).state ≡ false) × NoneOnline w ps

any_online-false : (w : World) (ps : List ℕ) → any_online w ps ≡ false → NoneOnline w ps
unfolding any_online
any_online-false w [] h = tt
any_online-false w (p ∷ ps) h = (ground arith, any_online-false w ps (ground arith))

NoneOnline-any : (w : World) (ps : List ℕ) → NoneOnline w ps → any_online w ps ≡ false
unfolding any_online
NoneOnline-any w [] h = refl
NoneOnline-any w (p ∷ ps) h = rw (h.0, NoneOnline-any w ps h.1)

abandoned_of :
    (w : World) (r : Room) (ps : List ℕ)
    → r.players ≡ ps
    → (is_abandoned w r ≡ true) ↔ NoneOnline w ps
unfolding is_abandoned any_online
abandoned_of w r [] e = (λ h. tt, λ h. rw (e, is_abandoned))
abandoned_of w r (p ∷ ps) e = (
  λ h. any_online-false w (p ∷ ps) (ground arith),
  λ h. rw (e, is_abandoned) (ground (arith, NoneOnline-any w ps h.1)),
)

-- A room is abandoned exactly when none of its players is online.
pub is_abandoned_iff : (w : World) (r : Room) → (is_abandoned w r ≡ true) ↔ NoneOnline w r.players
is_abandoned_iff w r = abandoned_of w r r.players refl

-- The owner, if there is one, sits in the room.
abbrev pub owner_sits : Option ℕ → List ℕ → Bool
owner_sits none ps = true
owner_sits (some o) ps = contains ps o

-- What the end of removePlayer makes of the room: an abandoned room has no owner and is marked; in
-- another the first player follows the owner who left.
pub record Settled (w : World) (r p : ℕ) (w' : World) : Type 0 where
  pub same_players : (w'.room r).players ≡ (w.room r).players
  pub marked : (w'.room r).abandoned ≡ (is_abandoned w (w.room r) || (w.room r).abandoned)
  pub ownerless : is_abandoned w (w.room r) ≡ true → (w'.room r).owner ≡ none
  pub inherited :
      is_abandoned w (w.room r) ≡ false
      → is_owner (w.room r).owner p ≡ true
      → owner_sits (w'.room r).owner (w.room r).players ≡ true
  pub stays :
      is_abandoned w (w.room r) ≡ false
      → is_owner (w.room r).owner p ≡ false
      → (w'.room r).owner ≡ (w.room r).owner
  pub listed : w'.rooms ≡ (
      if is_abandoned w (w.room r) && not (w.room r).abandoned
      then remove_one w.rooms r
      else w.rooms)

on_room_abandoned_lem :
    (w : World) (r : ℕ)
    → ((on_room_abandoned w r).room ≡ w.room)
      × ((on_room_abandoned w r).rooms ≡ remove_one w.rooms r)
unfolding on_room_abandoned update_online_info do_broadcast_notify
on_room_abandoned_lem w r = (ground arith, ground arith)

abbrev closed_room : Room → Room
closed_room room = record room { abandoned = true; owner = none }

set_owner-none_lem :
    (w : World) (r : ℕ)
    → ((set_owner w r none).room r ≡ record (w.room r) { owner = none })
      × ((set_owner w r none).rooms ≡ w.rooms)
unfolding set_owner
set_owner-none_lem w r = (ground arith, refl)

closed_by :
    (u : World) (r : ℕ) (room : Room) (rooms : List ℕ) (before : Bool)
    → u.room r ≡ room
    → u.rooms ≡ rooms
    → let w' = if not before then on_room_abandoned u r else u in
      (w'.room r ≡ room) × (w'.rooms ≡ (if not before then remove_one rooms r else rooms))
closed_by u r room rooms true e l = (e, l)
closed_by u r room rooms false e l =
    let (same, gone) = on_room_abandoned_lem u r in
    (ap (λ f. f r) same ∙ e, gone ∙ ap (λ (v : List ℕ). remove_one v r) l)

abandon_lem :
    (w : World) (r : ℕ)
    → ((abandon w r).room r ≡ closed_room (w.room r))
      × ((abandon w r).rooms ≡ (if not (w.room r).abandoned then remove_one w.rooms r else w.rooms))
unfolding abandon
abandon_lem w r =
    let w₁ = set_room w r (record (w.room r) { abandoned = true }) in
    let (closed, same) = set_owner-none_lem w₁ r in
    closed_by (set_owner w₁ r none) r (closed_room (w.room r)) w.rooms (w.room r).abandoned
      (closed ∙ ground arith) same

first_player_lem :
    (w : World) (r : ℕ) (ps : List ℕ)
    → is_empty ps ≡ false
    → let w' = first_player w r ps in
      (owner_sits (w'.room r).owner ps ≡ true)
      × ((w'.room r).players ≡ (w.room r).players)
      × ((w'.room r).abandoned ≡ (w.room r).abandoned)
      × (w'.rooms ≡ w.rooms)
unfolding set_owner do_broadcast_notify contains
first_player_lem w r [] h = cc
first_player_lem w r (p ∷ ps) h = (ground arith, ground arith, ground arith, refl)

open_not_empty : (w : World) (r : Room) → is_abandoned w r ≡ false → is_empty r.players ≡ false
unfolding is_abandoned
open_not_empty w r h = ground arith

-- The end of removePlayer keeps the seats; an abandoned room is marked and loses its owner, and the
-- server forgets it the first time; in another the owner who left gives way to one who sits there,
-- and any other owner stays.
pub settle-Settled : (w : World) (r p : ℕ) → Settled w r p (settle w r p)
unfolding settle
settle-Settled w r p = elim (Bool-cases (is_abandoned w (w.room r))) [
  | inl gone ↦
      let (end_, list) = abandon_lem w r in
      rw gone (record {
        same_players = ap (λ v. v.players) end_;
        marked = rw gone (ap (λ v. v.abandoned) end_);
        ownerless = λ h. ap (λ v. v.owner) end_;
        inherited = λ h. cc;
        stays = λ h. cc;
        listed = rw gone list;
      })
  | inr open_ ↦ elim (Bool-cases (is_owner (w.room r).owner p)) [
    | inl mine ↦
        let (sits, same, mark, list) =
          first_player_lem w r (w.room r).players (open_not_empty w (w.room r) open_) in
        rw (open_, mine)
          (record {
            same_players = same;
            marked = rw open_ mark;
            ownerless = λ h. cc;
            inherited = λ h k. sits;
            stays = λ h. cc;
            listed = rw open_ list;
          })
    | inr other ↦
        rw (open_, other)
          (record {
            same_players = refl;
            marked = rw open_;
            ownerless = λ h. cc;
            inherited = λ h. cc;
            stays = λ h k. refl;
            listed = rw open_;
          })
  ]
]

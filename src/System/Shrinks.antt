-- ===== src/System/Shrinks.antt =====
-- Operations that fill no seat: rooms keep their capacities and get no more players.
use free_kill.Lobby.Members
use free_kill.Base.{
  if◌then◌else◌, nat_beq_iff, Bool-cases, length, ◌==◌, int_eq, nat_eq, string_eq, contains,
  remove_one, count, count-remove_one, List, ℕ, ◌≤◌, String, ◌≡◌, refl, ap, ◌∙◌, inl, inr, Bool,
  true, false, not, Option, none, some, [], ◌∷◌, ◌++◌, arith,
}
use free_kill.Room.Seats.{update_player_game_data-SameSeats}
use free_kill.Base.Int.{ℤ, pos}
use free_kill.Player.{State, state_beq, robot}
use free_kill.World.{
  set_player, set_base, Place, lobby, set_room, is_online, Room, Payload, World, in_room,
}
use free_kill.World.Notify.{do_notify, do_broadcast_notify, broadcast, update_online_info}
use free_kill.Room.Basics.{push_request, set_owner, is_outdated, on_room_abandoned}
use free_kill.Room.Observers.{add_observer, remove_observer}
use free_kill.Room.Stats.{update_player_game_data}
use free_kill.ServerPlayer.Status.{set_state, on_ready_changed, set_ready}
use free_kill.ServerPlayer.Frames.{set_state-OnlyStatus}

-- No room has another capacity or more players than before; no room is listed that was not, and the
-- next number stays.
pub record Shrinks (w w' : World) : Type 0 where
  pub same_capacity : (q : ℕ) → (w'.room q).capacity ≡ (w.room q).capacity
  pub no_more : (q : ℕ) → length (w'.room q).players ≤ length (w.room q).players
  pub no_new : (q : ℕ) → count q w'.rooms ≤ count q w.rooms
  pub same_next : w'.next_room_id ≡ w.next_room_id

pub Shrinks-refl : (w : World) → Shrinks w w
Shrinks-refl w = record {
  same_capacity = λ q. refl;
  no_more = λ q. omega arith;
  no_new = λ q. omega arith;
  same_next = refl;
}

pub Shrinks-trans : {u v w : World} → Shrinks u v → Shrinks v w → Shrinks u w
Shrinks-trans a b = record {
  same_capacity = λ q. b.same_capacity q ∙ a.same_capacity q;
  no_more = λ q. omega (arith, a.no_more q, b.no_more q);
  no_new = λ q. omega (arith, a.no_new q, b.no_new q);
  same_next = b.same_next ∙ a.same_next;
}

-- The rooms, the list of them and the next number.
abbrev skeleton : World → (ℕ → Room) × List ℕ × ℕ
skeleton w = (w.room, w.rooms, w.next_room_id)

-- If these are the same, the rooms shrink.
pub still : {w w' : World} → skeleton w' ≡ skeleton w → Shrinks w w'
still e = record {
  same_capacity = λ q. ap (λ s. (s.0 q).capacity) e;
  no_more = λ q. omega (arith, ap (λ s. length (s.0 q).players) e);
  no_new = λ q. omega (arith, ap (λ s. count q s.1) e);
  same_next = ap (λ s. s.2) e;
}

pub set_room-Shrinks :
    (w : World) (r : ℕ) (v : Room)
    → v.capacity ≡ (w.room r).capacity
    → length v.players ≤ length (w.room r).players
    → Shrinks w (set_room w r v)
set_room-Shrinks w r v c l = record {
  same_capacity = λ q. ground (arith, nat_beq_iff r q);
  no_more = λ q. ground (arith, nat_beq_iff r q);
  no_new = λ q. omega arith;
  same_next = refl;
}

pub if-Shrinks :
    {w a b : World} (t : Bool) → Shrinks w a → Shrinks w b → Shrinks w (if t then a else b)
if-Shrinks true x y = x
if-Shrinks false x y = y

pub broadcast-Shrinks : (w : World) (c : String) (b : Payload) → Shrinks w (broadcast w c b)
unfolding broadcast
broadcast-Shrinks w c b = still refl

pub set_state-Shrinks : (w : World) (p : ℕ) (s : State) → Shrinks w (set_state w p s)
set_state-Shrinks w p s = still (ap skeleton (set_state-OnlyStatus w p s).0.rest)

ready-skeleton :
    (w : World) (p : ℕ) (place : Place)
    → (w.player p).room ≡ place
    → skeleton (on_ready_changed w p) ≡ skeleton w
unfolding on_ready_changed do_broadcast_notify
ready-skeleton w p lobby e = rw (e, on_ready_changed) refl
ready-skeleton w p (in_room r) e = rw (e, on_ready_changed) refl

pub set_ready-Shrinks : (w : World) (p : ℕ) (b : Bool) → Shrinks w (set_ready w p b)
unfolding set_ready
set_ready-Shrinks w p b =
    still (ready-skeleton (set_base w p (record (w.player p).base { ready = b })) p _ refl)

pub lobby_add-Shrinks : (w : World) (p : ℕ) → Shrinks w (Members.add_player w p)
unfolding Members.add_player Members.remove_player do_notify update_online_info do_broadcast_notify
lobby_add-Shrinks w p = elim (Bool-cases (state_beq (w.player p).state robot)) [
  | inl e ↦ rw (Members.add_player, e) (still refl)
  | inr e ↦ rw (Members.add_player, e) (still refl)
]

pub lobby_remove-Shrinks : (w : World) (p : ℕ) → Shrinks w (Members.remove_player w p)
unfolding Members.remove_player update_online_info
lobby_remove-Shrinks w p = still refl

pub push_request-Shrinks :
    (w : World) (r : ℕ) (i : ℤ) (t : String) → Shrinks w (push_request w r i t)
unfolding push_request
push_request-Shrinks w r i t = still refl

pub is_outdated-Shrinks : (w : World) (r : ℕ) → Shrinks w (is_outdated w r).1
unfolding is_outdated
is_outdated-Shrinks w r = elim (Bool-cases ((w.room r).md5 == w.md5)) [
  | inl e ↦ rw e (Shrinks-refl w)
  | inr e ↦ rw e (set_room-Shrinks w r _ refl (omega arith))
]

pub set_owner-Shrinks : (w : World) (r : ℕ) (o : Option ℕ) → Shrinks w (set_owner w r o)
unfolding set_owner do_broadcast_notify
set_owner-Shrinks w r none = set_room-Shrinks w r _ refl (omega arith)
set_owner-Shrinks w r (some p) =
    Shrinks-trans (set_room-Shrinks w r (record (w.room r) { owner = some p }) refl (omega arith))
      (still refl)

pub on_room_abandoned-Shrinks : (w : World) (r : ℕ) → Shrinks w (on_room_abandoned w r)
unfolding on_room_abandoned update_online_info do_broadcast_notify
on_room_abandoned-Shrinks w r =
    let w₁ = update_online_info (record w { rooms = remove_one w.rooms r }) in
    let a : Shrinks w w₁ = record {
      same_capacity = λ q. refl;
      no_more = λ q. omega arith;
      no_new = λ q. omega (arith, count-remove_one w.rooms r q);
      same_next = refl;
    } in
    Shrinks-trans a (if-Shrinks ((w₁.room r).lua_ref_count == pos 0) (still refl) (still refl))

pub add_observer-Shrinks : (w : World) (r p : ℕ) → Shrinks w (add_observer w r p)
unfolding add_observer do_notify
add_observer-Shrinks w r p =
    let seen = record (w.room r) { observers = (w.room r).observers ++ p ∷ [] } in
    let w₁ = set_room w r seen in
    let w₂ = set_player w₁ p (record (w₁.player p) { room = in_room r }) in
    let a : Shrinks w w₁ = set_room-Shrinks w r seen refl (omega arith) in
    let b : Shrinks w₁ w₂ = still refl in
    if-Shrinks (not (w.room r).game_started) (still refl) (
      if-Shrinks (contains (w.room r).rejected_players (w.player p).id) (still refl) (
        Shrinks-trans (Shrinks-trans a b)
          (Shrinks-trans (lobby_remove-Shrinks w₂ p) (push_request-Shrinks _ r _ _))))

pub remove_observer-Shrinks : (w : World) (r p : ℕ) → Shrinks w (remove_observer w r p)
unfolding remove_observer do_notify
remove_observer-Shrinks w r p =
    let seen = record (w.room r) { observers = remove_one (w.room r).observers p } in
    let w₁ = set_room w r seen in
    let w₂ = Members.add_player w₁ p in
    let a : Shrinks w w₁ = set_room-Shrinks w r seen refl (omega arith) in
    Shrinks-trans (Shrinks-trans a (lobby_add-Shrinks w₁ p)) (
      Shrinks-trans (if-Shrinks (is_online (w₂.player p).state) (still refl) (Shrinks-refl w₂))
        (push_request-Shrinks _ r _ _))

pub game_data-Shrinks : (w : World) (i : ℤ) (m : String) → Shrinks w (update_player_game_data w i m)
game_data-Shrinks w i m =
    let same = update_player_game_data-SameSeats w i m _ refl in
    record {
      same_capacity = λ q. ap (λ f. (f q).capacity) same.same_room;
      no_more = λ q. omega (arith, ap (λ f. length (f q).players) same.same_room);
      no_new = λ q. omega (arith, ap (count q) same.same_list);
      same_next = same.same_next;
    }

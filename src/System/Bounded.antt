-- ===== src/System/Bounded.antt =====
-- Room capacities against the seats taken, and what joining (src/server/room.cpp, lobby.cpp,
-- server.cpp) makes of them.
use free_kill.Room.Joining
use free_kill.Lobby.Members
use free_kill.World.Notify.{do_broadcast_notify, update_online_info}
use free_kill.Room.Joining.{take_seat, introduction}
use free_kill.Room.Seats.{welcome-SameSeats}
use free_kill.Base.{
  contains, count, ◌∙◌, if◌then◌else◌, nat_beq_iff, Bool-cases, length, ◌==◌, int_eq, nat_eq,
  string_eq, ℕ, ◌≤◌, ◌≡◌, refl, ap, inl, inr, Bool, true, false, not, ◌||◌, Option, none, some,
  arith,
}
use free_kill.Room.Seating.{
  is_welcome, add_player-Seated, add_player_refused, Fits, add_player-Fits,
}
use free_kill.Base.Int.{is_negative, leb_ℤ, ℤ, pos, negsuc}
use free_kill.Player.{robot}
use free_kill.World.{set_base, Room, World, Env, in_room}
use free_kill.Room.Basics.{is_full}
use free_kill.ServerPlayer.Status.{set_state, set_ready}
use free_kill.Room.Joining.{new_server_player, create, make_robot, is_owner, add_robot}
use free_kill.System.Shrinks.{
  Shrinks-trans, still, set_room-Shrinks, set_state-Shrinks, set_ready-Shrinks, Shrinks,
}

-- No more players than the capacity, if that is not a negative number.
abbrev pub is_bounded : Room → Bool
is_bounded r = is_negative r.capacity || leb_ℤ (pos (length r.players)) r.capacity

-- Every room is bounded; the numbers from the next one on are not listed, and none is listed twice.
pub record Sound (w : World) : Type 0 where
  pub bounded : (q : ℕ) → is_bounded (w.room q) ≡ true
  pub fresh : (q : ℕ) → w.next_room_id ≤ q → count q w.rooms ≡ 0
  pub once : (q : ℕ) → count q w.rooms ≤ 1

pub record Keeps (w w' : World) : Type 0 where
  pub keeps : Sound w → Sound w'

pub Keeps-refl : (w : World) → Keeps w w
Keeps-refl w = record { keeps = λ h. h }

pub Keeps-trans : {u v w : World} → Keeps u v → Keeps v w → Keeps u w
Keeps-trans a b = record { keeps = λ h. b.keeps (a.keeps h) }

smaller :
    (m n : ℕ) (c d : ℤ)
    → d ≡ c
    → n ≤ m
    → (is_negative c || leb_ℤ (pos m) c) ≡ true
    → (is_negative d || leb_ℤ (pos n) d) ≡ true
smaller m n (pos a) (pos b) e l h = ground arith
smaller m n (negsuc a) (negsuc b) e l h = ground arith
smaller m n (pos a) (negsuc b) e l h = ground arith
smaller m n (negsuc a) (pos b) e l h = ground arith

pub Shrinks-Keeps : {w w' : World} → Shrinks w w' → Keeps w w'
Shrinks-Keeps {w} {w'} s = record {
  keeps = λ h. record {
    bounded = λ q.
        smaller (length (w.room q).players) (length (w'.room q).players) (w.room q).capacity
          (w'.room q).capacity (s.same_capacity q) (s.no_more q) (h.bounded q);
    fresh = λ q above.
        let below = h.fresh q (omega (arith, above, s.same_next)) in
        omega (arith, below, s.no_new q);
    once = λ q. omega (arith, h.once q, s.no_new q);
  };
}

pub if-Keeps : {w a b : World} (t : Bool) → Keeps w a → Keeps w b → Keeps w (if t then a else b)
if-Keeps true x y = x
if-Keeps false x y = y

add_player-capacity :
    (env : Env) (w : World) (r p q : ℕ)
    → ((Joining.add_player env w r (some p)).room q).capacity ≡ (w.room q).capacity
add_player-capacity env w r p q = elim (Bool-cases (is_welcome w r p)) [
  | inl let_in ↦
      let s = add_player-Seated env w r p let_in in
      elim (Bool-cases (r == q)) [
        | inl e ↦ rw (← (nat_beq_iff r q).0 e, s.last_seat) refl
        | inr n ↦ ap (λ v. v.capacity) (s.other_rooms q n)
      ]
  | inr out ↦ ap (λ v. (v.room q).capacity) (add_player_refused env w r p out)
]

add_player-bounded :
    (env : Env) (w : World) (r p q : ℕ)
    → is_bounded (w.room q) ≡ true
    → is_bounded ((Joining.add_player env w r (some p)).room q) ≡ true
add_player-bounded env w r p q h = elim (Bool-cases (is_negative (w.room q).capacity)) [
  | inl n ↦ rw (add_player-capacity env w r p q, n) refl
  | inr n ↦
      let fits : Fits (w.room q) = ground arith in ground (arith, add_player-Fits env w r p q fits)
]

add_player-skeleton :
    (env : Env) (w : World) (r p : ℕ)
    → let w' = Joining.add_player env w r (some p) in
      (w'.rooms ≡ w.rooms) × (w'.next_room_id ≡ w.next_room_id)
unfolding Joining.add_player take_seat Members.remove_player update_online_info do_broadcast_notify
add_player-skeleton env w r p = elim (Bool-cases (is_welcome w r p)) [
  | inl let_in ↦
      let told = do_broadcast_notify w (w.room r).players "AddPlayer" (introduction (w.player p)) in
      let seated = take_seat told r p in
      let same = welcome-SameSeats env seated r p in
      let list : seated.rooms ≡ w.rooms = ground arith in
      let next : seated.next_room_id ≡ w.next_room_id = ground arith in
      let rejected : contains (w.room r).rejected_players (w.player p).id ≡ false = ground arith in
      let shut : (is_full (w.room r) || (w.room r).game_started) ≡ false = ground arith in
      rw (Joining.add_player, rejected, shut) (same.same_list ∙ list, same.same_next ∙ next)
  | inr out ↦
      let e = add_player_refused env w r p out in (ap (λ v. v.rooms) e, ap (λ v. v.next_room_id) e)
]

pub add_player-Keeps :
    (env : Env) (w : World) (r : ℕ) (p : Option ℕ) → Keeps w (Joining.add_player env w r p)
unfolding Joining.add_player
add_player-Keeps env w r none = Keeps-refl w
add_player-Keeps env w r (some p) =
    let (list, next) = add_player-skeleton env w r p in
    record {
      keeps = λ h. record {
        bounded = λ q. add_player-bounded env w r p q (h.bounded q);
        fresh = λ q above. omega (arith, h.fresh q (omega (arith, above, next)), ap (count q) list);
        once = λ q. omega (arith, h.once q, ap (count q) list);
      };
    }

make_robot-Shrinks : (env : Env) (w : World) (r p : ℕ) → Shrinks w (make_robot env w r p)
unfolding make_robot
make_robot-Shrinks env w r p =
    let w₀ = create w (new_server_player (in_room r)) in
    let w₁ = set_state w₀ p robot in
    let v = (w₁.player p).base in
    let w₂ = set_base w₁ p (record v {
      id = (w.room r).robot_id;
      avatar = "guanyu";
      screen_name = Prim.Native.String.◌++◌ "COMP-" (env.print (w.room r).robot_id);
    }) in
    let w₃ = set_ready w₂ p true in
    let a : Shrinks w w₀ = still refl in
    let b : Shrinks w₁ w₂ = still refl in
    Shrinks-trans
      (Shrinks-trans (Shrinks-trans (Shrinks-trans a (set_state-Shrinks w₀ p robot)) b)
        (set_ready-Shrinks w₂ p true))
      (set_room-Shrinks w₃ r _ refl (omega arith))

pub add_robot-Keeps : (env : Env) (w : World) (r p : ℕ) → Keeps w (add_robot env w r p)
unfolding add_robot
add_robot-Keeps env w r p =
    let made = make_robot env w r w.next_player in
    if-Keeps (not (is_owner (w.room r).owner p) || is_full (w.room r)) (Keeps-refl w) (
      Keeps-trans (Shrinks-Keeps (make_robot-Shrinks env w r w.next_player))
        (add_player-Keeps env made r (some w.next_player)))

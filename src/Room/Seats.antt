-- ===== src/Room/Seats.antt =====
-- Who sits where after Room::addPlayer (src/server/room.cpp).
use free_kill.Server.Ban
use free_kill.Base.{
  Bool-cases, ◌==◌, nat_eq, string_eq, int_eq, ℕ, String, ◌≡◌, refl, ◌∙◌, inl, inr, Option, none,
  some, List, [], ◌∷◌, arith,
}
use free_kill.Base.Int.{is_negative, ℤ}
use free_kill.Player.{state_beq, Player, robot}
use free_kill.World.{set_base, Payload, World, Env}
use free_kill.World.Notify.{do_notify, do_broadcast_notify}
use free_kill.Room.Stats.{show_game_data, update_player_game_data}
use free_kill.Room.Joining.{introduce_one, introduce, tell_owner, show_mode, welcome}

-- Rooms, lobby and every player's place are as they were.
pub record SameSeats (w w' : World) : Type 0 where
  pub same_room : w'.room ≡ w.room
  pub same_lobby : w'.lobby_players ≡ w.lobby_players
  pub same_list : w'.rooms ≡ w.rooms
  pub same_next : w'.next_room_id ≡ w.next_room_id
  pub same_place : (q : ℕ) → (w'.player q).room ≡ (w.player q).room

SameSeats-refl : (w : World) → SameSeats w w
SameSeats-refl w = record {
  same_room = refl;
  same_lobby = refl;
  same_list = refl;
  same_next = refl;
  same_place = λ q. refl;
}

SameSeats-trans : {u v w : World} → SameSeats u v → SameSeats v w → SameSeats u w
SameSeats-trans a b = record {
  same_room = b.same_room ∙ a.same_room;
  same_lobby = b.same_lobby ∙ a.same_lobby;
  same_list = b.same_list ∙ a.same_list;
  same_next = b.same_next ∙ a.same_next;
  same_place = λ q. b.same_place q ∙ a.same_place q;
}

do_notify-SameSeats :
    (w : World) (p : ℕ) (c : String) (b : Payload) → SameSeats w (do_notify w p c b)
unfolding do_notify
do_notify-SameSeats w p c b = record {
  same_room = refl;
  same_lobby = refl;
  same_list = refl;
  same_next = refl;
  same_place = λ q. refl;
}

broadcast-SameSeats :
    (w : World) (ps : List ℕ) (c : String) (b : Payload)
    → SameSeats w (do_broadcast_notify w ps c b)
unfolding do_broadcast_notify
broadcast-SameSeats w ps c b = record {
  same_room = refl;
  same_lobby = refl;
  same_list = refl;
  same_next = refl;
  same_place = λ q. refl;
}

set_base-SameSeats : (w : World) (p : ℕ) (b : Player) → SameSeats w (set_base w p b)
set_base-SameSeats w p b = record {
  same_room = refl;
  same_lobby = refl;
  same_list = refl;
  same_next = refl;
  same_place = λ q. ground arith;
}

show_game_data-SameSeats :
    (w : World) (p : ℕ) (i : ℤ) (m : String) → SameSeats w (show_game_data w p i m)
unfolding show_game_data
show_game_data-SameSeats w p i m =
    SameSeats-trans (set_base-SameSeats w p _) (broadcast-SameSeats _ _ _ _)

pub update_player_game_data-SameSeats :
    (w : World) (i : ℤ) (m : String) (o : Option ℕ)
    → Ban.find_player w i ≡ o
    → SameSeats w (update_player_game_data w i m)
unfolding update_player_game_data
update_player_game_data-SameSeats w i m none e = elim (Bool-cases (is_negative i)) [
  | inl n ↦ rw n (SameSeats-refl w)
  | inr n ↦
      rw (n, e, update_player_game_data)
        (record {
          same_room = refl;
          same_lobby = refl;
          same_list = refl;
          same_next = refl;
          same_place = λ q. refl;
        })
]
update_player_game_data-SameSeats w i m (some p) e = elim (Bool-cases (is_negative i)) [
  | inl n ↦ rw n (SameSeats-refl w)
  | inr n ↦ elim (Bool-cases (state_beq (w.player p).state robot)) [
    | inl b ↦ rw (n, e, update_player_game_data, b) (SameSeats-refl w)
    | inr b ↦ rw (n, e, update_player_game_data, b) (show_game_data-SameSeats w p i m)
  ]
]

introduce_one-SameSeats : (w : World) (p q : ℕ) → SameSeats w (introduce_one w p q)
unfolding introduce_one
introduce_one-SameSeats w p q =
    SameSeats-trans (do_notify-SameSeats w p _ _) (do_notify-SameSeats _ p _ _)

introduce-SameSeats : (p : ℕ) (qs : List ℕ) (w : World) → SameSeats w (introduce w p qs)
unfolding introduce
introduce-SameSeats p [] w = SameSeats-refl w
introduce-SameSeats p (q ∷ qs) w =
    SameSeats-trans (introduce_one-SameSeats w p q) (introduce-SameSeats p qs (introduce_one w p q))

tell_owner-SameSeats : (w : World) (p : ℕ) (o : Option ℕ) → SameSeats w (tell_owner w p o)
unfolding tell_owner
tell_owner-SameSeats w p none = SameSeats-refl w
tell_owner-SameSeats w p (some o) = do_notify-SameSeats w p _ _

show_mode-SameSeats : (w : World) (r p : ℕ) (m : String) → SameSeats w (show_mode w r p m)
unfolding show_mode
show_mode-SameSeats w r p m = elim (Bool-cases ((w.player p).last_game_mode == m)) [
  | inl e ↦ rw e (broadcast-SameSeats w _ _ _)
  | inr e ↦
      rw e (
        SameSeats-trans (set_base-SameSeats w p _) (update_player_game_data-SameSeats _ _ m _ refl))
]

pub welcome-SameSeats : (env : Env) (w : World) (r p : ℕ) → SameSeats w (welcome env w r p)
unfolding welcome
welcome-SameSeats env w r p =
    SameSeats-trans
      (SameSeats-trans (SameSeats-trans (do_notify-SameSeats w p _ _) (introduce-SameSeats p _ _))
        (tell_owner-SameSeats _ p _))
      (show_mode-SameSeats _ r p _)

-- ===== src/ServerPlayer/Frames.antt =====
-- What the setters of src/server/serverplayer.cpp leave alone.
use free_kill.Base.{
  Bool-cases, ◌==◌, nat_eq, string_eq, int_eq, ℕ, ◌≡◌, refl, ◌∙◌, inl, inr, false, arith,
}
use free_kill.Player.{State}
use free_kill.World.{set_base, is_online, Place, World, lobby, in_room}
use free_kill.World.Notify.{do_broadcast_notify}
use free_kill.Room.Basics.{is_abandoned}
use free_kill.ServerPlayer.Status.{pause_game_timer, resume_game_timer, on_state_changed, set_state}

-- Only the player `p` has changed, not his id, place, socket or readiness to die, and something may
-- have been sent.
pub record OnlyStatus (w : World) (p : ℕ) (w' : World) : Type 0 where
  pub others : (q : ℕ) → (p == q) ≡ false → w'.player q ≡ w.player q
  pub same_id : (w'.player p).id ≡ (w.player p).id
  pub same_room : (w'.player p).room ≡ (w.player p).room
  pub same_socket : (w'.player p).socket ≡ (w.player p).socket
  pub same_died : (w'.player p).died ≡ (w.player p).died
  pub rest : w' ≡ record w { player = w'.player; sent = w'.sent }

module _ (w : World) (p : ℕ) where
  on_state_changed_at :
      (place : Place)
      → (w.player p).room ≡ place
      → OnlyStatus w p (on_state_changed w p)
        × (((on_state_changed w p).player p).state ≡ (w.player p).state)
  unfolding on_state_changed do_broadcast_notify resume_game_timer pause_game_timer
  on_state_changed_at lobby e =
      rw (e, on_state_changed)
        (
          record {
            others = λ q h. refl;
            same_id = refl;
            same_room = refl;
            same_socket = refl;
            same_died = refl;
            rest = refl;
          },
          refl,
        )
  on_state_changed_at (in_room r) e = elim (Bool-cases (is_abandoned w (w.room r))) [
    | inl gone ↦
        rw (e, on_state_changed, gone)
          (
            record {
              others = λ q h. refl;
              same_id = refl;
              same_room = refl;
              same_socket = refl;
              same_died = refl;
              rest = refl;
            },
            refl,
          )
    | inr open_ ↦ elim (Bool-cases (is_online (w.player p).state)) [
      | inl o ↦
          rw (e, on_state_changed, open_, o)
            (
              record {
                others = λ q h. ground arith;
                same_id = ground arith;
                same_room = ground arith;
                same_socket = ground arith;
                same_died = ground arith;
                rest = refl;
              },
              ground arith,
            )
      | inr o ↦
          rw (e, on_state_changed, open_, o)
            (
              record {
                others = λ q h. ground arith;
                same_id = ground arith;
                same_room = ground arith;
                same_socket = ground arith;
                same_died = ground arith;
                rest = refl;
              },
              ground arith,
            )
    ]
  ]

-- setState sets the state; it changes no other player, and of the player himself not the id, the
-- place, the socket or the mark of death; of the rest of the world only what is sent.
pub set_state-OnlyStatus :
    (w : World) (p : ℕ) (s : State)
    → OnlyStatus w p (set_state w p s) × (((set_state w p s).player p).state ≡ s)
unfolding set_state
set_state-OnlyStatus w p s =
    let w₁ = set_base w p (record (w.player p).base { state = s }) in
    let (f, e) = on_state_changed_at w₁ p _ refl in
    (
      record {
        others = λ q h. f.others q h ∙ ground arith;
        same_id = f.same_id ∙ ground arith;
        same_room = f.same_room ∙ ground arith;
        same_socket = f.same_socket ∙ ground arith;
        same_died = f.same_died ∙ ground arith;
        rest = f.rest;
      },
      e ∙ ground arith,
    )

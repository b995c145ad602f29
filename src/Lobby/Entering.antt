-- ===== src/Lobby/Entering.antt =====
-- Who gets into a room from the lobby: Lobby::enterRoom (src/server/lobby.cpp) with Room::addPlayer
-- behind it.
use free_kill.Lobby.Commands.{find_room, visit_room, enter_room}
use free_kill.Room.Seating.{is_welcome, add_player-Seated, add_player_refused}
use free_kill.Room.Basics.{is_outdated}
use free_kill.Room.Joining.{add_player}
use free_kill.World.{setting, World, Env}
use free_kill.World.Notify.{do_notify}
use free_kill.Json.{at, to_int, to_string, as_array}
use free_kill.Base.{
  nat_beq_iff, Bool-cases, Option-cases, ◌==◌, int_eq, nat_eq, string_eq, contains, contains-last,
  ℕ, String, ◌≡◌, refl, sym, ap, ◌∙◌, ◌↔◌, ◌⊎◌, inl, inr, true, false, ◌||◌, some, arith,
}
use free_kill.Base.Int.{ℤ, pos, negsuc}

-- What enterRoom and observeRoom ask of a request for the room r: that it stands in the request and
-- on the list, that the password fits or there is none, and that the MD5 is the server's.
pub record Passes (env : Env) (w : World) (msg : String) (r : ℕ) : Type 0 where
  asked : to_int (at (as_array (env.from_json msg)) 0) ≡ pos r
  listed : contains w.rooms r ≡ true
  opened :
      (let password = setting env (w.room r).settings "password" in
        password == "" || to_string (at (as_array (env.from_json msg)) 1) == password)
      ≡ true
  current : ((w.room r).md5 == w.md5) ≡ true

-- No room has got or lost a player.
abbrev Seats : World → World → Type 0
Seats w v = (q : ℕ) → (v.room q).players ≡ (w.room q).players

find_room-some :
    (w : World) (i : ℤ) (r : ℕ) → find_room w i ≡ some r → (i ≡ pos r) × (contains w.rooms r ≡ true)
find_room-some w (negsuc i) r h = ground arith
find_room-some w (pos i) r h = elim (Bool-cases (contains w.rooms i)) [
  | inl e ↦ let same : i ≡ r = ground arith in (ap pos same, rw (← same) e)
  | inr e ↦ ground arith
]

-- A request passes and goes on with its room, or nobody's seat changes.
visit_room-cases :
    (env : Env) (go : World → ℕ → World) (w : World) (p : ℕ) (msg : String)
    → ((r : ℕ) × (Passes env w msg r × (visit_room env go w p msg ≡ go w r)))
      ⊎ Seats w (visit_room env go w p msg)
unfolding visit_room is_outdated do_notify
visit_room-cases env go w p msg =
    let args = as_array (env.from_json msg) in
    elim (Option-cases (find_room w (to_int (at args 0)))) [
      | inl e ↦ inr (λ q. rw (e, visit_room) refl)
      | inr (r, e) ↦
          let (asked, listed) = find_room-some w (to_int (at args 0)) r e in
          let password = setting env (w.room r).settings "password" in
          elim (Bool-cases (password == "" || to_string (at args 1) == password)) [
            | inr shut ↦ inr (λ q. rw (e, visit_room, shut) refl)
            | inl open_ ↦ elim (Bool-cases ((w.room r).md5 == w.md5)) [
              | inl current ↦ inl (
                r,
                (
                  record { asked = asked; listed = listed; opened = open_; current = current },
                  rw (e, visit_room, open_, current) refl,
                ),
              )
              | inr old ↦ inr (λ q. rw (e, visit_room, open_, old) (ground arith))
            ]
          ]
    ]

visit_room-Passes :
    (env : Env) (go : World → ℕ → World) (w : World) (p : ℕ) (msg : String) (r : ℕ)
    → Passes env w msg r
    → visit_room env go w p msg ≡ go w r
unfolding visit_room is_outdated
visit_room-Passes env go w p msg r s = rw (visit_room, s.asked, s.listed, s.opened, s.current) refl

-- Whoever comes to sit in a room by addPlayer is welcome there, and it is the room asked for.
got_in :
    (env : Env) (w : World) (p r q : ℕ)
    → contains (w.room r).players p ≡ false
    → contains ((add_player env w q (some p)).room r).players p ≡ true
    → (q ≡ r) × (is_welcome w q p ≡ true)
got_in env w p r q out inside = elim (Bool-cases (is_welcome w q p)) [
  | inr refused ↦
      let same = ap (λ v. contains (v.room r).players p) (add_player_refused env w q p refused) in
      ground arith
  | inl let_in ↦ elim (Bool-cases (q == r)) [
    | inl e ↦ ((nat_beq_iff q r).0 e, let_in)
    | inr e ↦
        let same =
          ap (λ v. contains v.players p) ((add_player-Seated env w q p let_in).other_rooms r e) in
        ground arith
  ]
]

-- A player who is not yet among the players of a room is among them after enterRoom exactly if the
-- room is the one that he names, is on the list, has no password or the one that he gives, has the
-- MD5 of the server, has not rejected him, and is neither full nor playing.
pub enter_room_lets_in :
    (env : Env) (w : World) (p : ℕ) (msg : String) (r : ℕ)
    → contains (w.room r).players p ≡ false
    → (contains ((enter_room env w p msg).room r).players p ≡ true)
      ↔ (Passes env w msg r × (is_welcome w r p ≡ true))
unfolding enter_room
enter_room_lets_in env w p msg r out =
    let go : World → ℕ → World = λ v q. add_player env v q (some p) in
    (
      λ inside. elim (visit_room-cases env go w p msg) [
        | inr same ↦ let kept = ap (λ ps. contains ps p) (same r) in ground arith
        | inl (q, (passes, e)) ↦
            let (here, let_in) =
              got_in env w p r q out (ap (λ v. contains (v.room r).players p) (sym e) ∙ inside) in
            rw (← here) (passes, let_in)
      ],
      λ (passes, let_in).
          rw
            (
              visit_room-Passes env go w p msg r passes,
              (add_player-Seated env w r p let_in).last_seat,
            )
            (contains-last (w.room r).players p),
    )

-- ===== src/Client/Players.antt =====
-- Players that the client of src/client/client.cpp knows by id.
use mathlib.Core.Path.{fun_ext}
use free_kill.Player.{Player, new_player}
use free_kill.Client.{Client, value, assign, add_player, remove_player, change_self, clear_players}
use free_kill.Base.{
  if◌then◌else◌, Bool-cases, Option-cases, nat_beq_iff, beq_refl, Bool, true, false, sym, ap, ◌<◌,
  ◌==◌, nat_eq, int_eq, ℕ, String, ◌≡◌, refl, ◌∙◌, Option, none, some, List, [], ◌∷◌, inl, inr,
  arith,
}
use free_kill.Base.Int.{ℤ, int_beq_iff}

value-assign :
    (m : List (ℤ × Option ℕ)) (i j : ℤ) (p : Option ℕ)
    → value (assign m i p) j ≡ (if i == j then p else value m j)
unfolding value assign
value-assign [] i j p = refl
value-assign ((h, q) ∷ m) i j p =
    ground (arith, value-assign m i j p, int_beq_iff h i, int_beq_iff h j, int_beq_iff i j)

-- An abstract table of players: what is known of the player under an id.
abbrev Table : Type 0
Table = ℤ → Option Player

abbrev seen : (ℕ → Player) → Option ℕ → Option Player
seen f none = none
seen f (some p) = some (f p)

abbrev pub table : Client → Table
table c i = seen c.player (value c.players i)

abbrev pub set : Table → ℤ → Option Player → Table
set t i v j = if i == j then v else t j

-- Every pointer of the map is to an object that has been made.
abbrev pub AllMade : Client → Type 0
AllMade c = (i : ℤ) (p : ℕ) → value c.players i ≡ some p → p < c.next_player

seen-if :
    (f : ℕ → Player) (b : Bool) (p q : Option ℕ)
    → seen f (if b then p else q) ≡ (if b then seen f p else seen f q)
seen-if f true p q = refl
seen-if f false p q = refl

-- A new object at a new address is not seen under the other ids.
seen_new :
    (f : ℕ → Player) (v : Player) (o : Option ℕ) (n : ℕ)
    → ((p : ℕ) → o ≡ some p → p < n)
    → seen (λ q. if n == q then v else f q) o ≡ seen f o
seen_new f v none n h = refl
seen_new f v (some p) n h =
    let other : (n == p) ≡ false = ground (arith, h p refl, nat_beq_iff n p) in rw other refl

added :
    (c : Client) (i : ℤ) (name avatar : String) (j : ℤ)
    → AllMade c
    → table (add_player c i name avatar) j
      ≡ set (table c) i (some (record new_player { id = i; screen_name = name; avatar = avatar })) j
unfolding add_player
added c i name avatar j made =
    let v : Player = record new_player { id = i; screen_name = name; avatar = avatar } in
    let f : ℕ → Player = λ q. if c.next_player == q then v else c.player q in
    ap (seen f) (value-assign c.players i j (some c.next_player)) ∙ elim (Bool-cases (i == j)) [
      | inl e ↦ rw (e, beq_refl c.next_player) refl
      | inr e ↦ rw e (seen_new c.player v (value c.players j) c.next_player (made j))
    ]

added-AllMade :
    (c : Client) (i : ℤ) (name avatar : String) → AllMade c → AllMade (add_player c i name avatar)
unfolding add_player
added-AllMade c i name avatar made j p h =
    let found = sym (value-assign c.players i j (some c.next_player)) ∙ h in
    ground (arith, found, made j p)

removed : (c : Client) (i j : ℤ) → table (remove_player c i) j ≡ set (table c) i none j
unfolding remove_player
removed c i j = elim (Option-cases (value c.players i)) [
  | inl e ↦
      rw (e, remove_player)
        (ap (seen c.player) (value-assign c.players i j none) ∙ seen-if c.player (i == j) none _)
  | inr (p, e) ↦
      rw (e, remove_player)
        (ap (seen c.player) (value-assign c.players i j none) ∙ seen-if c.player (i == j) none _)
]

unchanged : (c : Client) (i j : ℤ) → table (change_self c i) j ≡ table c j
unfolding change_self
unchanged c i j =
    ap (seen c.player)
      (value-assign c.players i j (value c.players i) ∙ ground (arith, int_beq_iff i j))

-- If every pointer in the map is to an object that has been made, then the client's players, with what
-- is known of them, are what the operations say: adding puts a player with that id, name and avatar
-- under the id and changes nobody else, removing puts nobody there, clearing leaves nobody, and
-- changing the self changes nobody; and after adding every pointer is again to an object that has been
-- made.
pub players-table :
    (c : Client) (i : ℤ) (name avatar : String)
    → AllMade c
    → (table (add_player c i name avatar)
        ≡ set
            (table c)
            i
            (some (record new_player { id = i; screen_name = name; avatar = avatar })))
      × (table (remove_player c i) ≡ set (table c) i none)
      × (table (clear_players c) ≡ (λ j. none))
      × (table (change_self c i) ≡ table c)
      × AllMade (add_player c i name avatar)
unfolding clear_players value
players-table c i name avatar made = (
  fun_ext (λ j. added c i name avatar j made),
  fun_ext (removed c i),
  refl,
  fun_ext (unchanged c i),
  added-AllMade c i name avatar made,
)

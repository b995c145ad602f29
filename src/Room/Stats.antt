-- ===== src/Room/Stats.antt =====
-- Win and run rates (src/server/room.cpp).
use free_kill.Server.Ban
use free_kill.Base.{
  if◌then◌else◌, nat_eq, string_eq, int_eq, contains, Eq, ℕ, zero, suc, ◌+◌, String, not, Option,
  none, some, List, [], ◌∷◌, ◌++◌,
}
use free_kill.Base.Int.{is_negative, ℤ, pos}
use free_kill.Json.{array, num}
use free_kill.Player.{state_beq, set_game_data, robot}
use free_kill.Database.{find_run, update_run, find_rate, update_rate, mode_rate, RunRate, WinRate}
use free_kill.SqlText.{check_string}
use free_kill.World.{set_base, fault, Place, World, lobby, in_room, json}
use free_kill.World.Notify.{do_broadcast_notify}

-- `switch (game_result)`: what one game adds to wins, losses and draws.
abbrev one_game : ℕ → ℕ × ℕ × ℕ
one_game (suc zero) = (1, 0, 0)
one_game (suc (suc zero)) = (0, 1, 0)
one_game (suc (suc (suc zero))) = (0, 0, 1)
one_game _ = (0, 0, 0)

module _ {K : Type 0} ⦃e : Eq K⦄ where
  -- select, then insert a row or update the one found
  pub count_game : List (WinRate K) → K → String → String → ℕ → List (WinRate K)
  unfolding find_rate update_rate
  count_game rows k m role result =
      let (win, lose, draw) = one_game result in
      elim (find_rate rows k m role) [
        | none ↦
            rows
            ++ record { key = k; mode = m; role = role; win = win; lose = lose; draw = draw } ∷ []
        | some r ↦ update_rate rows k m role (win + r.win) (lose + r.lose) (draw + r.draw)
      ]

-- addRunRate
pub count_run : List RunRate → ℤ → String → List RunRate
unfolding find_run update_run
count_run rows i m = elim (find_run rows i m) [
  | none ↦ rows ++ record { id = i; mode = m; run = 1 } ∷ []
  | some n ↦ update_run rows i m (1 + n)
]

unfoldable pub add_run_rate : World → ℤ → String → World
add_run_rate w i m = record w { db = record w.db { run_rate = count_run w.db.run_rate i m } }

abbrev or_zero : Option ℕ → ℕ
or_zero none = 0
or_zero (some n) = n

abbrev or_zeros : Option (ℕ × ℕ) → ℕ × ℕ
or_zeros none = (0, 0)
or_zeros (some t) = t

-- RoomBase::getPlayers of a player's room
abbrev players_at : World → Place → List ℕ
players_at w lobby = w.lobby_players
players_at w (in_room r) = (w.room r).players

-- updatePlayerGameData once the player is known to be no robot
unfoldable pub show_game_data : World → ℕ → ℤ → String → World
show_game_data w p i m =
    let runs = or_zero (find_run w.db.run_rate i m) in
    let (total, win) = or_zeros (mode_rate w.db.p_win_rate i m) in
    let v = w.player p in
    let w₁ = set_base w p (set_game_data v.base (pos total) (pos win) (pos runs)) in
    do_broadcast_notify w₁ (players_at w₁ v.room) "UpdateGameData"
      (json (array (num v.id ∷ num (pos total) ∷ num (pos win) ∷ num (pos runs) ∷ [])))

-- A player who is not in the server's map is a null pointer that the source reads.
unfoldable pub update_player_game_data : World → ℤ → String → World
update_player_game_data w i m = if is_negative i then w else elim (Ban.find_player w i) [
  | none ↦ fault w
  | some p ↦ if state_beq (w.player p).state robot then w else show_game_data w p i m
]

abbrev pub set_last_mode : World → ℕ → String → World
set_last_mode w p m = set_base w p (record (w.player p).base { last_game_mode = m })

unfoldable pub update_player_win_rate : World → ℕ → ℤ → String → String → ℕ → World
update_player_win_rate w r i m role result =
    if not (check_string m)
    then w
    else (let w₁ = record w {
      db = record w.db { p_win_rate = count_game w.db.p_win_rate i m role result };
    } in
        let w₂ = if contains (w.room r).runned_players i then add_run_rate w₁ i m else w₁ in
        elim (Ban.find_player w₂ i) [
          | none ↦ w₂
          | some p ↦
              if contains (w.room r).players p
              then update_player_game_data (set_last_mode w₂ p m) i m
              else w₂
        ])

unfoldable pub update_general_win_rate : World → String → String → String → ℕ → World
update_general_win_rate w general m role result =
    if not (check_string general) then w else if not (check_string m) then w else record w {
      db = record w.db { g_win_rate = count_game w.db.g_win_rate general m role result };
    }

-- ===== src/Player.antt =====
-- src/core/player.h and player.cpp: what server and client share of a player.
pub mod StateText
use free_kill.Base.{
  if◌then◌else◌, ◌==◌, nat_eq, string_eq, int_eq, ℕ, ◌+◌, String, Bool, true, false, List, [], ◌∷◌,
}
use free_kill.Base.Int.{ℤ, pos}

pub data State : Type 0 where
  invalid online trust run leave robot offline : State

abbrev pub state_beq : State → State → Bool
state_beq invalid invalid = true
state_beq online online = true
state_beq trust trust = true
state_beq run run = true
state_beq leave leave = true
state_beq robot robot = true
state_beq offline offline = true
state_beq _ _ = false

pub record Player : Type 0 where
  pub id : ℤ
  pub screen_name : String
  pub avatar : String
  pub total_game_time : ℕ
  pub state : State
  pub ready : Bool
  pub died : Bool
  pub last_game_mode : String
  pub total_games : ℤ
  pub win_count : ℤ
  pub run_count : ℤ

-- The constructor leaves `died` as it finds it; here it starts false.
abbrev pub new_player : Player
new_player = record {
  id = pos 0;
  screen_name = "";
  avatar = "";
  total_game_time = 0;
  state = invalid;
  ready = false;
  died = false;
  last_game_mode = "";
  total_games = pos 0;
  win_count = pos 0;
  run_count = pos 0;
}

abbrev pub get_game_data : Player → List ℤ
get_game_data p = p.total_games ∷ p.win_count ∷ p.run_count ∷ []

abbrev pub set_game_data : Player → ℤ → ℤ → ℤ → Player
set_game_data p total win runs = record p { total_games = total; win_count = win; run_count = runs }

abbrev pub add_total_game_time : Player → ℕ → Player
add_total_game_time p to_add = record p { total_game_time = p.total_game_time + to_add }

-- getStateString
abbrev pub state_string : State → String
state_string online = "online"
state_string trust = "trust"
state_string run = "run"
state_string leave = "leave"
state_string robot = "robot"
state_string offline = "offline"
state_string invalid = "invalid"

-- The state that setStateString sets.
pub state_of_string : String → State
state_of_string s =
    if s == "online"
    then online
    else if s == "trust"
    then trust
    else if s == "run"
    then run
    else if s == "robot"
    then robot
    else if s == "offline"
    then offline
    else invalid

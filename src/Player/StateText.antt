-- ===== src/Player/StateText.antt =====
-- getStateString and setStateString of src/core/player.cpp, one against the other.
use free_kill.Base.{if◌then◌else◌, ◌≡◌, refl}
use free_kill.Player.{state_beq, state_string, state_of_string, State, invalid, online, leave}

-- Setting the state from its own text gives the state back, except for `leave`, whose text is read
-- as `invalid`.
pub state_of_string-state_string :
    (s : State) → state_of_string (state_string s) ≡ (if state_beq s leave then invalid else s)
unfolding state_of_string
state_of_string-state_string online = refl
state_of_string-state_string _ = refl

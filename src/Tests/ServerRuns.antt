-- ===== src/Tests/ServerRuns.antt =====
-- Runs of the server's gate, of the players' states and of checkString.
use free_kill.Server.Ban
use free_kill.Database.{find_user, find_user_id, find_column}
use free_kill.Shell.{known_user, ban_account, ban_ip_by_name}
use free_kill.Shell.Bans.{ShutOut, ban_account_shuts_out, ban_ip_shuts_out}
use free_kill.Server.Gate.{
  check_password_sound, passes_gate, TurnedAway, process_request-TurnedAway, Credentials,
}
use free_kill.Server.Auth.{account_error, check_password}
use free_kill.Server.Login.{connection_error, setup_parts, process_request}
use free_kill.SqlText.{codes, has_forbidden, has_pair, check_string}
use free_kill.Tests.Data.{alice, cai, waiting, env₀}
use free_kill.Base.{
  if◌then◌else◌, length, ◌==◌, int_eq, nat_eq, string_eq, contains, ◌≡◌, refl, sym, ap, ◌≢◌, ◌↔◌,
  true, ◌&&◌, Option, none, some, [], ◌∷◌,
}
use free_kill.Base.Int.{ℤ, pos}
use free_kill.Json.{array, Json, undefined, num, str}
use free_kill.Lobby.Commands.{salted, update_password, enter_room}
use free_kill.Lobby.Entering.{enter_room_lets_in, Passes}
use free_kill.Lobby.Passwords.{changed_row, is_ascii, utf8, update_password_opens}
use free_kill.World.{Env}
use free_kill.Room.Seating.{is_welcome}

check_password_sound_example :
    Credentials env₀ waiting "Cai" "pw" cai
    × (Ban.find_player (check_password env₀ waiting 5 "Cai" "pw" "salt").1 (pos 15) ≡ none)
unfolding check_password free_kill.Server.Auth.name_error free_kill.Server.Auth.account_result
    free_kill.Server.Auth.account_error free_kill.Server.Auth.query_user_info Ban.find_player
    Ban.get_config find_user find_column check_string Ban.value Ban.free_of Ban.check_ban_word
    free_kill.SqlText.has_match has_forbidden has_pair contains
check_password_sound_example = check_password_sound env₀ waiting 5 "Cai" "pw" "salt" cai refl

abbrev parts_or : Option Json → Json
parts_or none = undefined
parts_or (some j) = j

process_request-TurnedAway_example :
    TurnedAway waiting 5 (process_request env₀ waiting 5 "setup" "salt")
unfolding setup_parts
process_request-TurnedAway_example =
    process_request-TurnedAway env₀ waiting 5 "setup" "salt" (setup_parts env₀ "setup") refl
      (λ parts e. ap (λ q. passes_gate env₀ waiting (parts_or q)) (sym e))

ban_account_shuts_out_example :
    ShutOut
      (ban_account env₀ waiting "Alice" true)
      5
      (check_password env₀ (ban_account env₀ waiting "Alice" true) 5 "Alice" "pw" "salt")
unfolding known_user check_string free_kill.SqlText.has_match has_forbidden has_pair find_user
    contains
ban_account_shuts_out_example = ban_account_shuts_out env₀ waiting 5 "Alice" "pw" "salt" alice refl

ban_ip_shuts_out_example :
    connection_error (ban_ip_by_name env₀ waiting "Alice" true) "10.0.0.7" ≢ none
unfolding known_user check_string free_kill.SqlText.has_match has_forbidden has_pair find_user
    contains
ban_ip_shuts_out_example = ban_ip_shuts_out env₀ waiting "Alice" alice refl

abbrev entering : Env
entering = record env₀ { from_json = λ s. some (array (num (pos 7) ∷ str "" ∷ [])) }

enter_room_lets_in_example :
    (contains ((enter_room entering waiting 3 "").room 7).players 3 ≡ true)
    ↔ (Passes entering waiting "" 7 × (is_welcome waiting 7 3 ≡ true))
unfolding contains
enter_room_lets_in_example = enter_room_lets_in entering waiting 3 "" 7 refl

abbrev changing : Env
changing = record env₀ {
  from_json = λ s. some (array (str "old" ∷ str "new" ∷ []));
  sha256_hex = λ b. if length b == 4 then "hash" else "newer";
}

-- Alice, whose salt is "0", changes her password from "old" to "new".
update_password_opens_example :
    ((j : ℤ)
      → find_user_id (update_password changing waiting 1 "").db.userinfo j ≡ (
          if j == pos 11 && alice.password == salted changing "old" alice.salt
          then some (changed_row changing alice "new")
          else find_user_id waiting.db.userinfo j))
    × (account_error changing (changed_row changing alice "new") (utf8 "new") ≡ none)
unfolding find_user_id is_ascii
update_password_opens_example = update_password_opens changing waiting 1 "" alice refl refl refl

-- ===== src/Lobby/Members.antt =====
-- Lobby::addPlayer and removePlayer (src/server/lobby.cpp). Room's signals `playerRemoved` and
-- `playerAdded` are connected to them (Room::Room in room.cpp).
use free_kill.Base.{if◌then◌else◌, nat_eq, string_eq, int_eq, remove_one, ℕ, [], ◌∷◌, ◌++◌}
use free_kill.Player.{state_beq, robot}
use free_kill.World.{set_player, delete_later, World, lobby, text}
use free_kill.World.Notify.{do_notify, update_online_info}

unfoldable pub remove_player : World → ℕ → World
remove_player w p = update_online_info (record w { lobby_players = remove_one w.lobby_players p })

unfoldable pub add_player : World → ℕ → World
add_player w p =
    let w₁ = record (set_player w p (record (w.player p) { room = lobby })) {
      lobby_players = w.lobby_players ++ p ∷ [];
    } in
    update_online_info (
      if state_beq (w.player p).state robot
      then delete_later (remove_player w₁ p) p
      else do_notify w₁ p "EnterLobby" (text "[]"))

-- ===== src/Lobby/Arrivals.antt =====
-- Lobby::addPlayer of src/server/lobby.cpp for a player who is no robot.
use free_kill.Lobby.Members
use free_kill.Base.{ℕ, ◌≡◌, refl, false, [], ◌∷◌, ◌++◌}
use free_kill.Player.{state_beq, robot}
use free_kill.World.{update, World, lobby}
use free_kill.World.Notify.{do_notify, do_broadcast_notify, update_online_info}

-- Who is no robot goes to the end of the lobby; rooms, map, bans and sockets are as they were.
pub lobby_add_lem :
    (w : World) (p : ℕ)
    → state_beq (w.player p).state robot ≡ false
    → let w' = Members.add_player w p in
      (w'.player ≡ update w.player p (record (w.player p) { room = lobby }))
      × (w'.room ≡ w.room)
      × (w'.lobby_players ≡ w.lobby_players ++ p ∷ [])
      × (w'.players ≡ w.players)
      × (w'.temp_banlist ≡ w.temp_banlist)
      × (w'.sock ≡ w.sock)
unfolding Members.add_player do_notify update_online_info do_broadcast_notify
lobby_add_lem w p h = rw h (refl, refl, refl, refl, refl, refl)

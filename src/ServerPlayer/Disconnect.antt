-- ===== src/ServerPlayer/Disconnect.antt =====
-- How a player's connection ends: ServerPlayer::setSocket, onDisconnected and kick
-- (src/server/serverplayer.cpp). The signal `kicked` is connected to `kick`.
use free_kill.Base.{
  leb, if◌then◌else◌, length, nat_eq, string_eq, int_eq, contains, ℕ, false, not, Option, none,
  some, List, [], ◌∷◌, ◌++◌,
}
use free_kill.Json.{array, str}
use free_kill.Player.{robot, offline}
use free_kill.World.{update, set_player, delete_later, Place, World, Env, lobby, in_room, json}
use free_kill.World.Notify.{broadcast}
use free_kill.Room.Basics.{wake_up}
use free_kill.ServerPlayer.Status.{set_state}
use free_kill.Room.Observers.{remove_observer}

abbrev drop : Option ℕ → List ℕ → List ℕ
drop none ds = ds
drop (some s) ds = ds ++ s ∷ []

unfoldable pub set_socket : World → ℕ → Option ℕ → World
set_socket w p s = record (set_player w p (record (w.player p) { socket = s })) {
  deleted_sockets = drop (w.player p).socket w.deleted_sockets;
}

-- ClientSocket::disconnectFromHost, as far as the server looks at the socket
unfoldable pub disconnect_from_host : World → ℕ → World
disconnect_from_host w s = record w {
  sock = update w.sock s (record (w.sock s) { connected = false });
}

-- "%1 logged out", told to everybody while the server is small
unfoldable pub say_logged_out : World → ℕ → World
say_logged_out w p =
    if leb (length w.players) 10
    then broadcast w "ServerMessage"
        (json (array (str "%1 logged out" ∷ str (w.player p).screen_name ∷ [])))
    else w

-- The branch of onDisconnected for a running game.
unfoldable pub disconnected_in_game : World → ℕ → ℕ → World
disconnected_in_game w p r =
    if contains (w.room r).observers p
    then delete_later (remove_observer w r p) p
    else (let w₁ = if (w.player p).thinking then wake_up w r "player_disconnect" else w in
        set_socket (set_state w₁ p offline) p none)

abbrev pub disconnected_at : World → ℕ → Place → World
disconnected_at w p lobby = delete_later (set_state w p robot) p
disconnected_at w p (in_room r) =
    if (w.room r).game_started
    then disconnected_in_game w p r
    else (let w₁ = set_state w p robot in
        if not (w₁.room r).inside_game_over then delete_later w₁ p else w₁)

unfoldable pub on_disconnected : World → ℕ → World
on_disconnected w p = disconnected_at (say_logged_out w p) p (w.player p).room

abbrev pub kick_socket : Env → World → ℕ → Option ℕ → World
kick_socket env w p none = on_disconnected w p
kick_socket env w p (some s) =
    let w₁ = disconnect_from_host w s in if env.closes_now s then on_disconnected w₁ p else w₁

unfoldable pub kick : Env → World → ℕ → World
kick env w p =
    let w₁ = set_state w p offline in set_socket (kick_socket env w₁ p (w₁.player p).socket) p none

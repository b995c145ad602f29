-- ===== src/ServerPlayer/Session.antt =====
-- A player's packets, reconnection and end: the slots and the destructor of ServerPlayer
-- (src/server/serverplayer.cpp), the heartbeat of Server::Server and ~Room.
use free_kill.Lobby.Members
use free_kill.Lobby.Commands
use free_kill.Room.Commands as RoomCommands
use free_kill.Server.Ban
use free_kill.Base.{
  leb, if◌then◌else◌, length, ◌==◌, nat_eq, string_eq, int_eq, remove_one, ℕ, String, Bool, true,
  false, not, ◌&&◌, Option, none, some, List, [], ◌∷◌,
}
use free_kill.Base.Int.{is_positive, is_negative}
use free_kill.Json.{array, str}
use free_kill.Player.{online}
use free_kill.World.{set_player, set_room, is_online, Place, World, Env, lobby, in_room, text, json}
use free_kill.World.Notify.{do_notify, broadcast}
use free_kill.Room.Basics.{push_request, wake_up}
use free_kill.Room.Observers.{remove_observer}
use free_kill.Room.Leaving.{remove_player}
use free_kill.Room.Game.{game_over}
use free_kill.ServerPlayer.Status.{set_state}
use free_kill.ServerPlayer.Disconnect.{set_socket, kick}
use free_kill.Server.Rooms.{setup_player}

abbrev pub packet_at : Env → World → ℕ → Place → String → String → World
packet_at env w p lobby c j = Commands.handle_packet env w p c j
packet_at env w p (in_room r) c j = RoomCommands.handle_packet env w r p c j

unfoldable pub on_notification_got : Env → World → ℕ → String → String → World
on_notification_got env w p c j =
    if c == "Heartbeat"
    then set_player w p (record (w.player p) { alive = true })
    else packet_at env w p (w.player p).room c j

abbrev pub set_thinking : World → ℕ → Bool → World
set_thinking w p t = set_player w p (record (w.player p) { thinking = t })

abbrev pub wake_at : World → Place → World
wake_at w lobby = w
wake_at w (in_room r) = wake_up w r "reply"

unfoldable pub on_reply_ready : World → ℕ → World
on_reply_ready w p = wake_at (set_thinking w p false) (w.player p).room

abbrev pub say_back : World → ℕ → World
say_back w p =
    if leb (length w.players) 10
    then broadcast w "ServerMessage"
        (json (array (str "%1 backed" ∷ str (w.player p).screen_name ∷ [])))
    else w

abbrev pub resume_at : Env → World → ℕ → Place → World
resume_at env w p lobby = kick env (do_notify w p "ErrorMsg" (text "Unknown Error")) p
resume_at env w p (in_room r) = push_request (setup_player w p true) r (w.player p).id "reconnect"

unfoldable pub reconnect : Env → World → ℕ → ℕ → World
reconnect env w p s =
    let w₁ = set_socket (set_state (say_back w p) p online) p (some s) in
    let w₂ = set_player w₁ p (record (w₁.player p) { alive = true }) in
    resume_at env w₂ p (w₂.player p).room

-- room->removePlayer(this), by the place at the moment
abbrev pub leave_place : Env → World → ℕ → Place → World
leave_place env w p lobby = Members.remove_player w p
leave_place env w p (in_room r) = remove_player env w r p

abbrev pub forget : World → ℕ → Option ℕ → World
forget w p none = w
forget w p (some q) = if q == p then Ban.remove_player w (w.player p).id else w

abbrev pub destroy_robot : World → ℕ → Place → World
destroy_robot w p lobby = w
destroy_robot w p (in_room r) =
    set_room w r (record (w.room r) { players = remove_one (w.room r).players p })

-- ~ServerPlayer: out of the room, out of the lobby, out of the map. A robot is taken out of the list
-- of its room by the signal `destroyed`.
unfoldable pub destroy_player : Env → World → ℕ → World
destroy_player env w p =
    if is_negative (w.player p).id
    then destroy_robot w p (w.player p).room
    else (let w₁ = leave_place env w p (w.player p).room in
        let w₂ = leave_place env w₁ p (w₁.player p).room in
        forget w₂ p (Ban.find_player w₂ (w₂.player p).id))

-- The heartbeat's first half: everybody online is asked.
unfoldable pub ask_heartbeat : World → List ℕ → World
ask_heartbeat w [] = w
ask_heartbeat w (p ∷ ps) =
    ask_heartbeat
      (if is_online (w.player p).state
        then do_notify (set_player w p (record (w.player p) { alive = false })) p "Heartbeat"
            (text "")
        else w)
      ps

-- And its second half, 30 seconds later: who has not answered is kicked.
unfoldable pub kick_silent : Env → World → List ℕ → World
kick_silent env w [] = w
kick_silent env w (p ∷ ps) =
    kick_silent env
      (if is_online (w.player p).state && not (w.player p).alive then kick env w p else w) ps

abbrev pub leave_all : Env → World → ℕ → List ℕ → World
leave_all env w r [] = w
leave_all env w r (p ∷ ps) =
    leave_all env (if is_positive (w.player p).id then remove_player env w r p else w) r ps

abbrev pub unwatch_all : World → ℕ → List ℕ → World
unwatch_all w r [] = w
unwatch_all w r (p ∷ ps) = unwatch_all (remove_observer w r p) r ps

-- ~Room. Its loops go over the lists of players and observers while removePlayer and removeObserver
-- take elements out of them: whom they come across, stale pointers behind the new end included, is
-- left open.
unfoldable pub destroy_room : Env → List ℕ → List ℕ → World → ℕ → World
destroy_room env ps os w r = unwatch_all (leave_all env (game_over env w r) r ps) r os

-- ===== src/World/Notify.antt =====
-- Notifications: ServerPlayer::doNotify, RoomBase::doBroadcastNotify, Server::broadcast and
-- Server::updateOnlineInfo (src/server/serverplayer.cpp, roombase.cpp, server.cpp). They only add to
-- `sent`.
use free_kill.Base.{if◌then◌else◌, length, ℕ, String, Option, none, some, List, [], ◌∷◌, ◌++◌}
use free_kill.Base.Int.{ℤ, pos}
use free_kill.Json.{array, num}
use free_kill.World.{is_online, ServerPlayer, Payload, Packet, World, json}

abbrev packets_to : Option ℕ → String → Payload → List Packet
packets_to none c b = []
packets_to (some s) c b = record { to = s; command = c; body = b } ∷ []

-- What doNotify sends: nothing unless the player is online; a router without a socket drops it.
pub notify_packets : ServerPlayer → String → Payload → List Packet
notify_packets p c b = if is_online p.state then packets_to p.socket c b else []

unfoldable pub do_notify : World → ℕ → String → Payload → World
do_notify w p c b = record w { sent = w.sent ++ notify_packets (w.player p) c b }

pub broadcast_packets : World → List ℕ → String → Payload → List Packet
broadcast_packets w [] c b = []
broadcast_packets w (p ∷ ps) c b = notify_packets (w.player p) c b ++ broadcast_packets w ps c b

unfoldable pub do_broadcast_notify : World → List ℕ → String → Payload → World
do_broadcast_notify w ps c b = record w { sent = w.sent ++ broadcast_packets w ps c b }

abbrev pub addresses : List (ℤ × ℕ) → List ℕ
addresses [] = []
addresses ((i, p) ∷ m) = p ∷ addresses m

unfoldable pub broadcast : World → String → Payload → World
unfolding do_broadcast_notify
broadcast w c b = do_broadcast_notify w (addresses w.players) c b

unfoldable pub update_online_info : World → World
unfolding do_broadcast_notify
update_online_info w =
    do_broadcast_notify w w.lobby_players "UpdatePlayerNum"
      (json (array (num (pos (length w.lobby_players)) ∷ num (pos (length w.players)) ∷ [])))

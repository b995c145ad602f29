-- ===== src/System/Commands.antt =====
-- A packet goes to the room or to the lobby (src/server/serverplayer.cpp).
use free_kill.System.Bounded.{Shrinks-Keeps, if-Keeps, Keeps}
use free_kill.Base.{◌==◌, int_eq, nat_eq, string_eq, ℕ, String, refl}
use free_kill.World.{Place, World, Env, lobby, in_room}
use free_kill.ServerPlayer.Session.{packet_at, on_notification_got}
use free_kill.System.Shrinks.{still}
use free_kill.System.RoomPackets.{room_packet-Keeps}
use free_kill.System.LobbyPackets.{lobby_packet-Keeps}

packet_at-Keeps :
    (env : Env) (w : World) (p : ℕ) (place : Place) (c j : String)
    → Keeps w (packet_at env w p place c j)
packet_at-Keeps env w p lobby c j = lobby_packet-Keeps env w p c j
packet_at-Keeps env w p (in_room r) c j = room_packet-Keeps env w r p c j

pub on_notification_got-Keeps :
    (env : Env) (w : World) (p : ℕ) (c j : String) → Keeps w (on_notification_got env w p c j)
unfolding on_notification_got
on_notification_got-Keeps env w p c j =
    if-Keeps (c == "Heartbeat") (Shrinks-Keeps (still refl))
      (packet_at-Keeps env w p (w.player p).room c j)

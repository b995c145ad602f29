-- ===== src/ServerPlayer/Apart.antt =====
-- What happens to a player of the lobby when he is kicked stays with him
-- (src/server/serverplayer.cpp).
use free_kill.Base.{
  leb, Bool-cases, length, ◌==◌, nat_eq, string_eq, int_eq, ℕ, ◌≡◌, refl, ap, ◌∙◌, inl, inr, false,
  Option, none, some, arith,
}
use free_kill.Player.{State, robot, offline}
use free_kill.World.{delete_later, World, Env, lobby}
use free_kill.World.Notify.{do_broadcast_notify, broadcast}
use free_kill.ServerPlayer.Status.{set_state}
use free_kill.ServerPlayer.Disconnect.{
  set_socket, disconnect_from_host, say_logged_out, on_disconnected, kick_socket, kick,
}
use free_kill.ServerPlayer.Frames.{set_state-OnlyStatus}

-- Rooms, lobby, maps, bans and the other players are as they were, and `p` is where he was.
pub record Apart (w : World) (p : ℕ) (w' : World) : Type 0 where
  pub same_room : w'.room ≡ w.room
  pub same_rooms : w'.rooms ≡ w.rooms
  pub same_lobby : w'.lobby_players ≡ w.lobby_players
  pub same_players : w'.players ≡ w.players
  pub same_bans : w'.temp_banlist ≡ w.temp_banlist
  pub others : (q : ℕ) → (p == q) ≡ false → w'.player q ≡ w.player q
  pub same_place : (w'.player p).room ≡ (w.player p).room

Apart-refl : (w : World) (p : ℕ) → Apart w p w
Apart-refl w p = record {
  same_room = refl;
  same_rooms = refl;
  same_lobby = refl;
  same_players = refl;
  same_bans = refl;
  others = λ q h. refl;
  same_place = refl;
}

Apart-trans : {u v w : World} {p : ℕ} → Apart u p v → Apart v p w → Apart u p w
Apart-trans a b = record {
  same_room = b.same_room ∙ a.same_room;
  same_rooms = b.same_rooms ∙ a.same_rooms;
  same_lobby = b.same_lobby ∙ a.same_lobby;
  same_players = b.same_players ∙ a.same_players;
  same_bans = b.same_bans ∙ a.same_bans;
  others = λ q h. b.others q h ∙ a.others q h;
  same_place = b.same_place ∙ a.same_place;
}

set_state-Apart : (w : World) (p : ℕ) (s : State) → Apart w p (set_state w p s)
set_state-Apart w p s =
    let f = (set_state-OnlyStatus w p s).0 in
    record {
      same_room = ap (λ v. v.room) f.rest;
      same_rooms = ap (λ v. v.rooms) f.rest;
      same_lobby = ap (λ v. v.lobby_players) f.rest;
      same_players = ap (λ v. v.players) f.rest;
      same_bans = ap (λ v. v.temp_banlist) f.rest;
      others = f.others;
      same_place = f.same_room;
    }

set_socket-Apart : (w : World) (p : ℕ) (s : Option ℕ) → Apart w p (set_socket w p s)
unfolding set_socket
set_socket-Apart w p s = record {
  same_room = refl;
  same_rooms = refl;
  same_lobby = refl;
  same_players = refl;
  same_bans = refl;
  others = λ q h. ground arith;
  same_place = ground arith;
}

delete_later-Apart : (w : World) (p : ℕ) → Apart w p (delete_later w p)
delete_later-Apart w p = record {
  same_room = refl;
  same_rooms = refl;
  same_lobby = refl;
  same_players = refl;
  same_bans = refl;
  others = λ q h. refl;
  same_place = refl;
}

disconnect-Apart : (w : World) (p s : ℕ) → Apart w p (disconnect_from_host w s)
unfolding disconnect_from_host
disconnect-Apart w p s = record {
  same_room = refl;
  same_rooms = refl;
  same_lobby = refl;
  same_players = refl;
  same_bans = refl;
  others = λ q h. refl;
  same_place = refl;
}

say_logged_out-Apart : (w : World) (p : ℕ) → Apart w p (say_logged_out w p)
unfolding say_logged_out broadcast do_broadcast_notify
say_logged_out-Apart w p = elim (Bool-cases (leb (length w.players) 10)) [
  | inl few ↦ rw few (record {
    same_room = refl;
    same_rooms = refl;
    same_lobby = refl;
    same_players = refl;
    same_bans = refl;
    others = λ q h. refl;
    same_place = refl;
  })
  | inr many ↦ rw many (Apart-refl w p)
]

on_disconnected-Apart :
    (w : World) (p : ℕ) → (w.player p).room ≡ lobby → Apart w p (on_disconnected w p)
unfolding on_disconnected
on_disconnected-Apart w p e =
    rw (e, on_disconnected)
      (Apart-trans (say_logged_out-Apart w p)
        (Apart-trans (set_state-Apart (say_logged_out w p) p robot) (delete_later-Apart _ p)))

kick_socket-Apart :
    (env : Env) (w : World) (p : ℕ) (s : Option ℕ)
    → (w.player p).room ≡ lobby
    → Apart w p (kick_socket env w p s)
kick_socket-Apart env w p none e = on_disconnected-Apart w p e
kick_socket-Apart env w p (some s) e = elim (Bool-cases (env.closes_now s)) [
  | inl now ↦
      let d = disconnect-Apart w p s in
      rw now (Apart-trans d (on_disconnected-Apart (disconnect_from_host w s) p (d.same_place ∙ e)))
  | inr later ↦ rw later (disconnect-Apart w p s)
]

-- Kicking a player who is in the lobby leaves rooms, lobby list, map of players, bans, the other
-- players and his own place as they were.
pub kick-Apart :
    (env : Env) (w : World) (p : ℕ) → (w.player p).room ≡ lobby → Apart w p (kick env w p)
unfolding kick
kick-Apart env w p e =
    let a = set_state-Apart w p offline in
    Apart-trans a (
      Apart-trans (kick_socket-Apart env (set_state w p offline) p _ (a.same_place ∙ e))
        (set_socket-Apart _ p none))

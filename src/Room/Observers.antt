-- ===== src/Room/Observers.antt =====
-- Room::addObserver and removeObserver (src/server/room.cpp).
use free_kill.Lobby.Members
use free_kill.Base.{
  if◌then◌else◌, nat_eq, string_eq, int_eq, contains, remove_one, ℕ, not, [], ◌∷◌, ◌++◌,
}
use free_kill.Json.{array, num, str}
use free_kill.World.{set_player, set_room, is_online, World, in_room, text, json}
use free_kill.World.Notify.{do_notify}
use free_kill.Room.Basics.{push_request}

unfoldable pub add_observer : World → ℕ → ℕ → World
add_observer w r p =
    if not (w.room r).game_started
    then do_notify w p "ErrorMsg" (text "Can only observe running room.")
    else if contains (w.room r).rejected_players (w.player p).id
    then do_notify w p "ErrorMsg" (text "rejected your demand of joining room")
    else (let w₁ =
          set_room w r (record (w.room r) { observers = (w.room r).observers ++ p ∷ [] }) in
        let w₂ = set_player w₁ p (record (w₁.player p) { room = in_room r }) in
        push_request (Members.remove_player w₂ p) r (w.player p).id "observe")

unfoldable pub remove_observer : World → ℕ → ℕ → World
remove_observer w r p =
    let w₁ = set_room w r (record (w.room r) { observers = remove_one (w.room r).observers p }) in
    let w₂ = Members.add_player w₁ p in
    let v = w₂.player p in
    let w₃ =
      if is_online v.state
      then do_notify w₂ p "Setup" (json (array (num v.id ∷ str v.screen_name ∷ str v.avatar ∷ [])))
      else w₂ in
    push_request w₃ r v.id "leave"

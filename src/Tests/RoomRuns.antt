-- ===== src/Tests/RoomRuns.antt =====
-- Runs in a room.
use free_kill.Room.Joining
use free_kill.Base.{
  int_eq, nat_eq, string_eq, contains, remove_one, count, ◌+◌, ◌≡◌, refl, true, some, [], ◌∷◌,
}
use free_kill.Tests.Data.{waiting, playing_world, env₀}
use free_kill.Room.Seating.{add_player-Seated, add_player_conserves, Seated}
use free_kill.Room.Ownership.{owner_sits}
use free_kill.Room.Basics.{is_full}
use free_kill.Room.Leaving.{remove_player}
use free_kill.Room.BeforeGame.{remove_player_before_game}
use free_kill.Room.Handover.{HandedOver}
use free_kill.Room.RunAway.{remove_player_in_game}

add_player-Seated_example : Seated waiting 7 3 (Joining.add_player env₀ waiting 7 (some 3))
unfolding is_full contains
add_player-Seated_example = add_player-Seated env₀ waiting 7 3 refl

add_player_conserves_example :
    count 3 (Joining.add_player env₀ waiting 7 (some 3)).lobby_players
      + count 3 ((Joining.add_player env₀ waiting 7 (some 3)).room 7).players
    ≡ 1
unfolding contains
add_player_conserves_example = add_player_conserves env₀ waiting 7 3 3 refl refl

remove_player_before_game_example :
    (((remove_player env₀ waiting 7 1).room 7).players ≡ 2 ∷ [])
    × (owner_sits
          ((remove_player env₀ waiting 7 1).room 7).owner
          ((remove_player env₀ waiting 7 1).room 7).players
        ≡ true)
unfolding contains remove_one
remove_player_before_game_example = remove_player_before_game env₀ waiting 7 1 refl refl refl

remove_player_in_game_example :
    HandedOver playing_world 7 2 (remove_player env₀ playing_world 7 2)
    × ((remove_player env₀ playing_world 7 2).temp_banlist ≡ "10.0.0.1" ∷ [])
unfolding contains
remove_player_in_game_example = remove_player_in_game env₀ playing_world 7 2 2 refl refl refl refl

-- ===== src/Server/Ban.antt =====
-- The server's map of players, its configuration and temporary bans (src/server/server.cpp).
use text.Mathlib.Text.{find?}
use free_kill.Base.{
  if◌then◌else◌, ◌==◌, nat_eq, string_eq, int_eq, remove_one, ℕ, ◌*◌, String, Bool, true, false,
  Option, none, some, List, [], ◌∷◌, ◌++◌,
}
use free_kill.Database.{find_user_id, find_column}
use free_kill.Base.Int.{to_ℕ, ℤ, pos}
use free_kill.Json.{
  array, is_undefined, to_int, to_string, to_list, Json, undefined, bool, num, str,
}
use free_kill.World.{Timer, World, Env, unban, unreject}
use free_kill.ServerPlayer.Disconnect.{kick}
use free_kill.Room.Basics.{remove_reject_id}

-- QHash<int, ServerPlayer *>::value
unfoldable pub find_player : World → ℤ → Option ℕ
find_player w i = find_column w.players i

-- QHash::remove
pub without : List (ℤ × ℕ) → ℤ → List (ℤ × ℕ)
without [] i = []
without ((j, p) ∷ m) i = let rest = without m i in if j == i then rest else (j, p) ∷ rest

-- Server::addPlayer: an entry with the id gives way.
unfoldable pub add_player : World → ℕ → World
add_player w p = record w { players = ((w.player p).id, p) ∷ without w.players (w.player p).id }

unfoldable pub remove_player : World → ℤ → World
remove_player w i = record w { players = without w.players i }

unfoldable pub value : List (String × Json) → String → Json
value [] k = undefined
value ((j, v) ∷ c) k = if j == k then v else value c k

unfoldable pub get_config : World → String → Json
get_config w k = value w.config k

-- SET_DEFAULT_CONFIG
abbrev set_default : String → Json → List (String × Json) → List (String × Json)
set_default k v c = if is_undefined (value c k) then c ++ (k, v) ∷ [] else c

-- readConfig, from the parsed file (an empty object if it cannot be read)
read_config : World → List (String × Json) → World
read_config w c = record w {
  config = set_default "roomCountPerThread" (num (pos 200)) (
      set_default "enableBots" (bool true) (
        set_default "hiddenPacks" (array []) (
          set_default "motd" (str "Welcome!") (
            set_default "tempBanTime" (num (pos 20)) (
              set_default "capacity" (num (pos 100)) (
                set_default "iconUrl" (str "default")
                  (set_default "description" (str "FreeKill Server") c)))))));
}

-- QString::indexOf(s) != -1
abbrev has_substring : String → String → Bool
has_substring s t = elim (find? s t) [ none ↦ false | some i ↦ true ]

unfoldable pub free_of : String → List Json → Bool
free_of s [] = true
free_of s (v ∷ vs) = if has_substring s (to_string v) then false else free_of s vs

unfoldable pub check_ban_word : World → String → Bool
check_ban_word w s = free_of s (to_list (get_config w "banwords"))

-- Milliseconds of tempBanTime minutes.
abbrev ban_time : World → ℕ
ban_time w = to_ℕ (to_int (get_config w "tempBanTime")) * 60000

-- The address that a ban of the player goes by; none if there is no trace of him.
unfoldable pub address_of : World → ℕ → ℤ → Option String
address_of w p i = elim (w.player p).socket [
  | some s ↦ some (w.sock s).peer_address
  | none ↦ elim (find_user_id w.db.userinfo i) [ none ↦ none | some u ↦ some u.last_login_ip ]
]

-- temp_banlist gets the address, and a timer takes it out again.
unfoldable pub ban_address : World → String → World
ban_address w addr = record w {
  temp_banlist = w.temp_banlist ++ addr ∷ [];
  timers = w.timers ++ (ban_time w, unban addr) ∷ [];
}

unfoldable pub temporarily_ban : Env → World → ℤ → World
temporarily_ban env w i = elim (find_player w i) [
  | none ↦ w
  | some p ↦ elim (address_of w p i) [ none ↦ w | some addr ↦ kick env (ban_address w addr) p ]
]

-- A timer that fires.
unfoldable pub fire : World → Timer → World
fire w (unban addr) = record w { temp_banlist = remove_one w.temp_banlist addr }
fire w (unreject r i) = remove_reject_id w r i

-- ===== src/Shell/Listing.antt =====
-- What the console shows (src/server/shell.cpp): players, rooms, packages, statistics and the time
-- since the start, each line of qInfo in its parts.
use free_kill.Base.{
  if◌then◌else◌, is_empty, length, ◌==◌, nat_eq, string_eq, int_eq, remove_one, ℕ, ◌/◌, ◌%◌, String,
  Bool, ◌&&◌, Option, none, some, List, [], ◌∷◌,
}
use free_kill.Base.Int.{ℤ, pos}
use free_kill.World.{World, Env, setting, Room}
use free_kill.Room.Basics.{thread_is_outdated}
use free_kill.PackMan.{Package}

-- What formatMsDuration puts together, the largest unit first.
pub data DurationPart : Type 0 where
  days hours minutes : ℕ → DurationPart
  seconds : ℕ → ℕ → DurationPart  -- "%1.%2 seconds"

pub data Line : Type 0 where
  no_players no_such_room no_rooms players_in_room package_head : Line
  player_count room_count logged_in next_room : ℕ → Line
  person : ℤ → String → Line
  a_room : ℤ → String → String → Line  -- "name [pw=password]", or the name if there is no password
  a_package : String → String → Bool → Line
  thread_line : ℕ → ℕ → Bool → Line  -- thread, rooms, outdated
  uptime : List DurationPart → Line

-- formatMsDuration; the text before `ret` is the list before it.
unfoldable pub format_ms_duration : ℕ → List DurationPart
format_ms_duration time =
    let t₁ = time / 1000 in
    let r₁ = seconds (t₁ % 60) (time % 1000) ∷ [] in
    let t₂ = t₁ / 60 in
    let r₂ = minutes (t₂ % 60) ∷ r₁ in
    let t₃ = t₂ / 60 in
    let r₃ = hours (t₃ % 24) ∷ r₂ in
    let t₄ = t₃ / 24 in
    if t₂ == 0 then r₁ else if t₃ == 0 then r₂ else if t₄ == 0 then r₃ else days t₄ ∷ r₃

pub persons : World → List ℕ → List Line
persons w [] = []
persons w (p ∷ ps) = person (w.player p).id (w.player p).screen_name ∷ persons w ps

abbrev addresses : List (ℤ × ℕ) → List ℕ
addresses [] = []
addresses ((i, p) ∷ m) = p ∷ addresses m

-- lspCommand
pub lsp_command : World → List Line
unfolding persons
lsp_command w =
    if is_empty w.players
    then no_players ∷ []
    else player_count (length w.players) ∷ persons w (addresses w.players)

pub room_line : Env → Room → Line
room_line env r = a_room r.id r.name (setting env r.settings "password")

pub room_lines : Env → World → List ℕ → List Line
unfolding room_line
room_lines env w [] = []
room_lines env w (r ∷ rs) = room_line env (w.room r) ∷ room_lines env w rs

-- findRoom, by the first id of a room
abbrev find_room : List ℕ → ℤ → Option ℕ
find_room [] i = none
find_room (r ∷ rs) i = if pos r == i then some r else find_room rs i

abbrev show_room : Env → World → Option ℕ → List Line
show_room env w none = no_such_room ∷ []
show_room env w (some r) = room_line env (w.room r) ∷ players_in_room ∷ persons w (w.room r).players

-- lsrCommand: with a number, that room; the argument is none if there is no word or an empty one.
pub lsr_command : Env → World → Option (Option ℤ) → List Line
unfolding room_lines persons
lsr_command env w (some none) = []
lsr_command env w (some (some i)) = show_room env w (find_room w.rooms i)
lsr_command env w none =
    if is_empty w.rooms
    then no_rooms ∷ []
    else room_count (length w.rooms) ∷ room_lines env w w.rooms

-- lspkgCommand, with the first eight characters of a hash
pub package_lines : (String → String) → List Package → List Line
package_lines first_8 [] = []
package_lines first_8 (p ∷ ps) =
    a_package p.name (first_8 p.hash) p.enabled ∷ package_lines first_8 ps

pub lspkg_command : (String → String) → List Package → List Line
unfolding package_lines
lspkg_command first_8 ps = package_head ∷ package_lines first_8 ps

-- statCommand's loop: an outdated thread without rooms goes, the others are shown.
unfoldable pub stat_threads : World → List ℕ → World × List Line
stat_threads w [] = (w, [])
stat_threads w (t ∷ ts) =
    let (outdated, w₁) = thread_is_outdated w t in
    let gone = is_empty (w₁.thread t).rooms && outdated in
    let w₂ = if gone then record w₁ { threads = remove_one w₁.threads t } else w₁ in
    let (w₃, ls) = stat_threads w₂ ts in
    (w₃, if gone then ls else thread_line t (length (w₁.thread t).rooms) outdated ∷ ls)

-- statCommand; the memory of Lua and SQLite is left out.
unfoldable pub stat_command : World → ℕ → World × List Line
stat_command w uptime_ms =
    let (w₁, ls) = stat_threads w w.threads in
    (
      w₁,
      uptime (format_ms_duration uptime_ms)
          ∷ logged_in (length w.players)
          ∷ next_room w.next_room_id
          ∷ ls,
    )

-- ===== src/Replayer.antt =====
-- src/client/replayer.{h,cpp}: the speed control and the playing loop. A speed is counted in halves;
-- the text of a file and its `elapsed` times, here not negative, are a parameter.
pub mod Speed
use free_kill.Base.{
  ltb, leb, if◌then◌else◌, ◌==◌, nat_eq, string_eq, Option, none, some, ◌||◌, map, ℕ, zero, suc,
  ◌+◌, ◌-◌, ◌*◌, ◌/◌, String, Bool, true, false, not, List, [], ◌∷◌,
}
use free_kill.Base.Int.{ℤ, pos, negsuc}

pub record Pair : Type 0 where
  pub elapsed : ℕ
  pub is_request : Bool
  pub cmd : String
  pub json_data : String

pub record Replayer : Type 0 where
  pub speed : ℕ  -- twice the speed of the source
  pub playing : Bool
  pub killed : Bool
  pub uniform_running : Bool
  pub play_sem : ℕ
  pub pairs : List Pair

-- The constructor, the file being read
abbrev pub load : List Pair → Replayer
load pairs = record {
  speed = 2;
  playing = true;
  killed = false;
  uniform_running = false;
  play_sem = 0;
  pairs = pairs;
}

pub speed_up : Replayer → Replayer
speed_up r =
    if ltb r.speed 32 then record r { speed = r.speed + (if leb 4 r.speed then 2 else 1) } else r

pub slow_down : Replayer → Replayer
slow_down r =
    if leb 2 r.speed then record r { speed = r.speed - (if ltb 4 r.speed then 2 else 1) } else r

pub uniform : Replayer → Replayer
uniform r = record r { uniform_running = not r.uniform_running }

unfoldable pub toggle : Replayer → Replayer
toggle r = record r {
  playing = not r.playing;
  play_sem = if r.playing then r.play_sem else r.play_sem + 1;
}

pub shutdown : Replayer → Replayer
shutdown r = record r { killed = true }

-- The buttons of the player
pub data Button : Type 0 where
  faster slower even pause stop : Button

pub press : Replayer → Button → Replayer
unfolding speed_up slow_down uniform toggle shutdown
press r faster = speed_up r
press r slower = slow_down r
press r even = uniform r
press r pause = toggle r
press r stop = shutdown r

pub presses : Replayer → List Button → Replayer
unfolding press
presses r [] = r
presses r (b ∷ bs) = presses (press r b) bs

-- What the loop does for one pair: msleep, elasped and command_parsed
pub record Shown : Type 0 where
  pub delay : ℤ
  pub at : ℤ
  pub cmd : String
  pub json_data : String

-- a - b
abbrev minus : ℕ → ℕ → ℤ
minus a b = if leb b a then pos (a - b) else negsuc (b - a - 1)

-- a / b for a positive b, towards zero
abbrev over : ℤ → ℕ → ℤ
over (pos n) b = pos (n / b)
over (negsuc n) b = if leb b (suc n) then negsuc (suc n / b - 1) else pos 0

abbrev twice : ℤ → ℤ
twice (pos n) = pos (2 * n)
twice (negsuc n) = negsuc (2 * n + 1)

abbrev even_out : ℤ → ℤ
even_out (pos n) = if ltb 500 n then pos 2000 else pos n
even_out (negsuc n) = negsuc n

-- The delay before a command, at the speed 1
delay_of : Bool → ℕ → ℕ → ℤ
delay_of evened last elapsed =
    if evened
    then even_out (minus elapsed last)
    else if last == 0
    then pos 100
    else minus elapsed last

-- The controls as the loop finds them for a pair: before its command, and after it, when a token of
-- play_sem may be there at once, may come later, or may never come to a paused replay.
pub record Moment : Type 0 where
  pub before : Replayer
  pub after : Replayer
  pub resumed : Bool  -- play_sem gets a token

-- `if (!playing) play_sem.acquire();`: whether it returns
abbrev pub goes_on : Moment → Bool
goes_on m = m.after.playing || (ltb 0 m.after.play_sem || m.resumed)

-- The loop of run; the moments of the pairs are given in order, one for each, and the loop ends with
-- them.
unfoldable pub play : List Moment → ℕ → ℕ → List Pair → List Shown
unfolding delay_of
play [] last start pairs = []
play cs last start [] = []
play (c ∷ cs) last start (p ∷ ps) =
    let skipped = play cs last start ps in
    let from = if start == 0 then p.elapsed else start in
    let rest = play cs p.elapsed from ps in
    if c.before.killed
    then []
    else if p.is_request
    then skipped
    else record {
      delay = over (twice (delay_of c.before.uniform_running last p.elapsed)) c.before.speed;
      at = over (minus p.elapsed from) 1000;
      cmd = p.cmd;
      json_data = p.json_data;
    }
      ∷ (if goes_on c then rest else [])

-- run: none with a toast for a file without settings of the room, else the commands that are shown
run : List Moment → String → List Pair → Option (List (String × String))
unfolding play
run cs settings pairs =
    if settings == ""
    then none
    else some (
        ("EnterRoom", settings)
        ∷ ("StartGame", "")
        ∷ map (λ s. (s.cmd, s.json_data)) (play cs 0 0 pairs))

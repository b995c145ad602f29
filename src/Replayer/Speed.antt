-- ===== src/Replayer/Speed.antt =====
-- The speed control of src/client/replayer.cpp.
use free_kill.Base.{
  ltb, leb, ap, ◌∙◌, Bool-cases, ℕ, ◌+◌, ◌-◌, ◌%◌, ◌≤◌, ◌<◌, ◌≡◌, refl, ◌⊎◌, inl, inr, List, [],
  ◌∷◌, arith, if◌then◌else◌,
}
use free_kill.Replayer.{
  Replayer, Pair, load, speed_up, slow_down, uniform, toggle, shutdown, press, presses, Button,
  faster, slower, even, pause, stop,
}

-- The speeds 0.5, 1, 1.5, 2, 3, ..., 16, in halves
unfoldable pub IsSpeed : ℕ → Type 0
IsSpeed s = (1 ≤ s) × (s ≤ 32) × ((s ≤ 4) ⊎ (s % 2 ≡ 0))

press-IsSpeed : (r : Replayer) (b : Button) → IsSpeed r.speed → IsSpeed (press r b).speed
unfolding IsSpeed press speed_up slow_down uniform toggle shutdown
press-IsSpeed r faster h = ground arith
press-IsSpeed r slower h = ground arith
press-IsSpeed r even h = h
press-IsSpeed r pause h = h
press-IsSpeed r stop h = h

keep-IsSpeed : (r : Replayer) (bs : List Button) → IsSpeed r.speed → IsSpeed (presses r bs).speed
unfolding presses
keep-IsSpeed r [] h = h
keep-IsSpeed r (b ∷ bs) h = keep-IsSpeed (press r b) bs (press-IsSpeed r b h)

load-IsSpeed : (pairs : List Pair) → IsSpeed (load pairs).speed
unfolding IsSpeed
load-IsSpeed pairs = ground arith

-- However the buttons of a freshly loaded replay are pressed, its speed is one of 0.5, 1, 1.5, 2 and
-- the whole numbers from 3 to 16.
pub presses-IsSpeed :
    (pairs : List Pair) (bs : List Button) → IsSpeed (presses (load pairs) bs).speed
presses-IsSpeed pairs bs = keep-IsSpeed (load pairs) bs (load-IsSpeed pairs)

-- What the two buttons make of a speed
up : ℕ → ℕ
up s = if ltb s 32 then s + (if leb 4 s then 2 else 1) else s

down : ℕ → ℕ
down s = if leb 2 s then s - (if ltb 4 s then 2 else 1) else s

speed_up_lem : (r : Replayer) → speed_up r ≡ record r { speed = up r.speed }
unfolding speed_up up
speed_up_lem r = elim (Bool-cases (ltb r.speed 32)) [ inl e ↦ rw e refl | inr e ↦ rw e refl ]

slow_down_lem : (r : Replayer) → slow_down r ≡ record r { speed = down r.speed }
unfolding slow_down down
slow_down_lem r = elim (Bool-cases (leb 2 r.speed)) [ inl e ↦ rw e refl | inr e ↦ rw e refl ]

down-up : (s : ℕ) → IsSpeed s → s < 32 → down (up s) ≡ s
unfolding IsSpeed up down
down-up s h k = ground arith

up-down : (s : ℕ) → IsSpeed s → 1 < s → up (down s) ≡ s
unfolding IsSpeed up down
up-down s h k = ground arith

-- At such a speed below 16, faster and then slower leaves the replayer as it was.
pub slow_down-speed_up :
    (r : Replayer) → IsSpeed r.speed → r.speed < 32 → slow_down (speed_up r) ≡ r
slow_down-speed_up r h k =
    slow_down_lem (speed_up r)
    ∙ ap {A = Replayer} {B = Replayer} (λ q. record q { speed = down q.speed }) (speed_up_lem r)
    ∙ ap {A = ℕ} {B = Replayer} (λ s. record r { speed = s }) (down-up r.speed h k)

-- At such a speed above 0.5, slower and then faster leaves the replayer as it was.
pub speed_up-slow_down : (r : Replayer) → IsSpeed r.speed → 1 < r.speed → speed_up (slow_down r) ≡ r
speed_up-slow_down r h k =
    speed_up_lem (slow_down r)
    ∙ ap {A = Replayer} {B = Replayer} (λ q. record q { speed = up q.speed }) (slow_down_lem r)
    ∙ ap {A = ℕ} {B = Replayer} (λ s. record r { speed = s }) (up-down r.speed h k)

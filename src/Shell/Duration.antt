-- ===== src/Shell/Duration.antt =====
-- What a duration shows (formatMsDuration, src/server/shell.cpp).
use free_kill.Base.{ℕ, ◌+◌, ◌*◌, ◌<◌, List, [], ◌∷◌, ◌≡◌, arith}
use free_kill.Shell.Listing.{DurationPart, days, hours, minutes, seconds, format_ms_duration}

abbrev pub part_ms : DurationPart → ℕ
part_ms (days n) = n * 86400000
part_ms (hours n) = n * 3600000
part_ms (minutes n) = n * 60000
part_ms (seconds n ms) = n * 1000 + ms

abbrev pub total_ms : List DurationPart → ℕ
total_ms [] = 0
total_ms (p ∷ ps) = part_ms p + total_ms ps

-- Below the next larger unit.
abbrev pub InRange : DurationPart → Type 0
InRange (days n) = Unit {0}
InRange (hours n) = n < 24
InRange (minutes n) = n < 60
InRange (seconds n ms) = (n < 60) × (ms < 1000)

abbrev pub AllInRange : List DurationPart → Type 0
AllInRange [] = Unit {0}
AllInRange (p ∷ ps) = InRange p × AllInRange ps

-- The parts that formatMsDuration shows add up to the time in milliseconds, and each is below the
-- next larger unit.
pub format_ms_duration-total :
    (time : ℕ) → (total_ms (format_ms_duration time) ≡ time) × AllInRange (format_ms_duration time)
unfolding format_ms_duration
format_ms_duration-total time = (ground arith, ground arith)

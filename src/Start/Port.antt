-- ===== src/Start/Port.antt =====
-- The port that `-s` makes the server listen on (src/freekill.cpp).
use free_kill.Base.{
  if◌then◌else◌, ◌==◌, int_eq, nat_eq, string_eq, ℕ, zero, suc, ◌+◌, ◌*◌, ◌/◌, ◌<◌, String, ◌≡◌,
  refl, true, false, Option, none, some, arith,
}
use free_kill.Base.Int.{ℤ, pos, negsuc}
use free_kill.Start.{port_of, start_server, freekill_main, Options, StartEnv, aborts, serves}

-- What a port has to do with the number that was given, if any: without one, or with 0, it is the
-- usual one; otherwise the two differ by a multiple of 65536.
abbrev pub PortFor : Option ℤ → ℕ → Type 0
PortFor none p = p ≡ 9527
PortFor (some (pos zero)) p = p ≡ 9527
PortFor (some (pos (suc n))) p = (k : ℕ) × (suc n ≡ p + 65536 * k)
PortFor (some (negsuc n)) p = (k : ℕ) × (p + suc n ≡ 65536 * k)

port_of-PortFor : (o : Option ℤ) → PortFor o (port_of o)
port_of-PortFor none = refl
port_of-PortFor (some (pos zero)) = refl
port_of-PortFor (some (pos (suc n))) = (suc n / 65536, ground arith)
port_of-PortFor (some (negsuc n)) = (n / 65536 + 1, ground arith)

port_of_lt : (o : Option ℤ) → port_of o < 65536
port_of_lt none = omega arith
port_of_lt (some (pos n)) = ground arith
port_of_lt (some (negsuc n)) = ground arith

-- With `-s` and neither `-v` nor `-h`, on a machine that is not turned away and whose log files can
-- be opened, the program serves on a port, or stops if it cannot listen on it. The port is below
-- 65536; it is 9527 if no number or 0 was given, and otherwise differs from the number by a
-- multiple of 65536.
pub freekill_main-port :
    (env : StartEnv) (options : Options) (value : String)
    → (env.device_uuid == "c5e8983a3d85a07c") ≡ false
    → env.opens "freekill.server.info.log" ≡ true
    → env.opens "freekill.server.error.log" ≡ true
    → options.version ≡ false
    → options.help ≡ false
    → options.server ≡ some value
    → (port : ℕ) × (freekill_main env options
        ≡ (if env.can_listen port then serves port else aborts "cannot listen on port %d!"))
      × (port < 65536)
      × PortFor (env.to_int value) port
unfolding freekill_main start_server
freekill_main-port env options value u i e v h s = (
  port_of (env.to_int value),
  rw (u, i, e, v, h, s) refl,
  port_of_lt (env.to_int value),
  port_of-PortFor (env.to_int value),
)

-- ===== src/Shell/Line.antt =====
-- A line of the console: Shell::handleLine and the table of commands (src/server/shell.cpp).
use mathlib.Core.Path.{ap₂}
use text.Mathlib.TextEquality.{Char-path}
use free_kill.Base.{
  if◌then◌else◌, Bool-cases, ◌==◌, nat_eq, string_eq, nat_beq_iff, String, ◌≡◌, refl, sym, ap,
  Option, none, some, List, [], ◌∷◌, inl, inr,
}
use Prim.Native.Char.{code}
use free_kill.Shell.Completion.{has_prefix}

-- QString::split(' '): the first word and the others; a word may be empty.
unfoldable pub split : String → String × List String
split String.[] = ("", [])
split (String.◌∷◌ c s) =
    let (w, ws) = split s in if code c == 32 then ("", w ∷ ws) else (String.◌∷◌ c w, ws)

-- QStringList::join(' ')
pub join : String → List String → String
join String.[] [] = ""
join String.[] (v ∷ vs) = String.◌∷◌ " " (join v vs)
join (String.◌∷◌ c w) vs = String.◌∷◌ c (join w vs)

-- The member functions that handler_map names
pub data Command : Type 0 where
  help_command lsp_command lsr_command install_command remove_command : Command
  upgrade_command lspkg_command enable_command disable_command kick_command : Command
  msg_command ban_command unban_command banip_command unbanip_command : Command
  ban_uuid_command unban_uuid_command reload_conf_command reset_password_command : Command
  stat_command : Command

-- handler_map
abbrev pub handlers : List (String × Command)
handlers =
    ("help", help_command)
    ∷ ("?", help_command)
    ∷ ("lsplayer", lsp_command)
    ∷ ("lsroom", lsr_command)
    ∷ ("install", install_command)
    ∷ ("remove", remove_command)
    ∷ ("upgrade", upgrade_command)
    ∷ ("u", upgrade_command)
    ∷ ("pkgs", lspkg_command)
    ∷ ("enable", enable_command)
    ∷ ("disable", disable_command)
    ∷ ("kick", kick_command)
    ∷ ("msg", msg_command)
    ∷ ("m", msg_command)
    ∷ ("ban", ban_command)
    ∷ ("unban", unban_command)
    ∷ ("banip", banip_command)
    ∷ ("unbanip", unbanip_command)
    ∷ ("banuuid", ban_uuid_command)
    ∷ ("unbanuuid", unban_uuid_command)
    ∷ ("reloadconf", reload_conf_command)
    ∷ ("r", reload_conf_command)
    ∷ ("resetpassword", reset_password_command)
    ∷ ("rp", reset_password_command)
    ∷ ("stat", stat_command)
    ∷ ("gc", stat_command)
    ∷ ("quit", help_command)
    ∷ ("crash", help_command)
    ∷ []

abbrev pub handler_of : List (String × Command) → String → Option Command
handler_of [] w = none
handler_of ((v, f) ∷ hs) w = if v == w then some f else handler_of hs w

pub data Outcome : Type 0 where
  quits crashes : Outcome
  unknown : String → Outcome
  runs : Command → List String → Outcome

-- A null pointer is the end of the input.
unfoldable pub handle_line : Option String → Outcome
handle_line none = quits
handle_line (some bytes) =
    let (first, rest) = split bytes in
    if has_prefix bytes "quit"
    then quits
    else if has_prefix bytes "crash"
    then crashes
    else elim (handler_of handlers first) [ none ↦ unknown first | some f ↦ runs f rest ]

-- The words of a line with spaces between them are the line.
join-split : (s : String) → join (split s).0 (split s).1 ≡ s
unfolding join split
join-split String.[] = refl
join-split (String.◌∷◌ c s) = elim (Bool-cases (code c == 32)) [
  | inl e ↦
      let blank = Char-path c " " ((nat_beq_iff (code c) 32).0 e) in
      rw e (ap₂ String.◌∷◌ (sym blank) (join-split s))
  | inr e ↦ rw e (ap (String.◌∷◌ c) (join-split s))
]

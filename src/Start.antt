-- ===== src/Start.antt =====
-- The entry point (src/freekill.cpp): what the program does with its command line, the assets that a
-- packaged program copies, and the message handler. The parser of options, the window system and the
-- splash screen are Qt; Android is left out.
pub mod Port
use free_kill.Base.{
  ℕ, zero, suc, ◌+◌, ◌-◌, ◌%◌, String, Bool, true, false, not, ◌&&◌, ◌||◌, Option, none, some, List,
  [], ◌∷◌, ◌++◌, ◌==◌, int_eq, string_eq, if◌then◌else◌,
}
use free_kill.Base.Int.{ℤ, pos, negsuc}

-- What QCommandLineParser has found, `server` with its value.
pub record Options : Type 0 where
  pub version : Bool
  pub help : Bool
  pub server : Option String

pub record StartEnv : Type 0 where
  pub device_uuid : String  -- GetDeviceUuid()
  pub to_int : String → Option ℤ  -- toInt with `ok`
  pub opens : String → Bool  -- fopen(name, "w+") succeeds
  pub can_listen : ℕ → Bool
  pub server_only : Bool  -- FK_SERVER_ONLY
  pub locale_name : String
  pub has_prefix : String → String → Bool  -- startsWith
  pub page_loads : Bool  -- engine->rootObjects() is not empty
  pub exe : String  -- /proc/self/exe
  pub home : String
  pub fk_ver : String → Option String  -- the first line of a file, if it can be read
  pub version : String  -- FK_VERSION

pub data Ending : Type 0 where
  exits : ℤ → Ending
  aborts : String → Ending  -- qFatal
  serves : ℕ → Ending  -- a server on a port, and the shell
  shows_ui : String → Ending  -- the window, with a translation

-- What is done on the disk: the directory copied, and the one that the program goes to.
pub record Prepared : Type 0 where
  pub copied : List (String × String)
  pub directory : Option String

-- installFkAssets: nothing is copied over assets of this version.
pub install_fk_assets : StartEnv → String → String → List (String × String)
install_fk_assets env src dest = elim (env.fk_ver dest) [
  | none ↦ (src, dest) ∷ []
  | some ver ↦ if ver == env.version then [] else (src, dest) ∷ []
]

-- prepareForLinux: a program that a package manager has installed keeps its files at home.
pub prepare_for_linux : StartEnv → Prepared
unfolding install_fk_assets
prepare_for_linux env =
    if env.exe == "/usr/bin/FreeKill"
    then record {
      copied = install_fk_assets env "/usr/share/FreeKill" env.home;
      directory = some env.home;
    }
    else if env.exe == "/usr/local/bin/FreeKill"
    then record {
      copied = install_fk_assets env "/usr/local/share/FreeKill" env.home;
      directory = some env.home;
    }
    else record { copied = []; directory = none }

-- An int as an unsigned short
abbrev pub to_ushort : ℤ → ℕ
to_ushort (pos n) = n % 65536
to_ushort (negsuc n) = 65535 - n % 65536

-- `if (value.toInt(&ok) && ok) serverPort = value.toInt();`
abbrev pub port_of : Option ℤ → ℕ
port_of none = 9527
port_of (some n) = if n == pos 0 then 9527 else to_ushort n

unfoldable pub start_server : StartEnv → String → Ending
start_server env value =
    let port = port_of (env.to_int value) in
    if env.can_listen port then serves port else aborts "cannot listen on port %d!"

-- The translation of a locale
pub translation : StartEnv → String
translation env =
    if env.has_prefix env.locale_name "zh_"
    then "zh_CN.qm"
    else if env.has_prefix env.locale_name "vi"
    then "vi_VN.qm"
    else "en_US.qm"

unfoldable pub start_ui : StartEnv → Ending
start_ui env =
    if env.server_only
    then aborts "This is server-only build and have no GUI support."
    else if env.page_loads
    then shows_ui (translation env)
    else exits (negsuc 0)

abbrev pub start_mode : StartEnv → Option String → Ending
start_mode env (some value) = start_server env value
start_mode env none = start_ui env

unfoldable pub freekill_main : StartEnv → Options → Ending
freekill_main env options =
    if env.device_uuid == "c5e8983a3d85a07c"
    then exits (pos 1)
    else if not (env.opens "freekill.server.info.log")
    then aborts "Cannot open info.log"
    else if not (env.opens "freekill.server.error.log")
    then aborts "Cannot open error.log"
    else if options.version || options.help
    then exits (pos 0)
    else start_mode env options.server

-- The kinds of message of Qt.
pub data MsgType : Type 0 where
  debug info warning critical fatal : MsgType

pub record LogLine : Type 0 where
  pub thread : String
  pub label : String
  pub text : String

pub record Logs : Type 0 where
  pub terminal : List LogLine
  pub info_log : List LogLine
  pub err_log : List LogLine
  pub dialogs : List LogLine  -- ErrorDialog of the user interface

-- fkMsgHandler; only a program with a user interface shows dialogs.
pub label_of : MsgType → String
label_of debug = "D"
label_of info = "I"
label_of warning = "W"
label_of critical = "C"
label_of fatal = "E"

abbrev pub is_info : MsgType → Bool
is_info debug = true
is_info info = true
is_info _ = false

abbrev pub is_critical : MsgType → Bool
is_critical critical = true
is_critical _ = false

pub fk_msg_handler : Bool → Logs → MsgType → String → String → Logs
unfolding label_of
fk_msg_handler has_backend logs type thread msg =
    let line : LogLine = record { thread = thread; label = label_of type; text = msg } in
    record {
      terminal = logs.terminal ++ line ∷ [];
      info_log = if is_info type then logs.info_log ++ line ∷ [] else logs.info_log;
      err_log = if is_info type then logs.err_log else logs.err_log ++ line ∷ [];
      dialogs = if is_critical type && has_backend then logs.dialogs ++ line ∷ [] else logs.dialogs;
    }

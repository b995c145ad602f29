-- ===== src/Sqlite.antt =====
-- Sqlite3 of src/core/c-wrapper.cpp: what the constructor does when something fails, and the results
-- of SELECT as objects. SQLite itself is a parameter.
pub mod Columns
use free_kill.Base.{
  String, Bool, true, false, not, Option, none, some, List, [], ◌∷◌, ◌==◌, string_eq, if◌then◌else◌,
}
use free_kill.Json.{Json, Fields, field, end, obj, str, array, put}

pub data Handle : Type 0 where
  opened closed : Handle

-- What the constructor leaves: the handle, and whether it has asked the application to exit.
pub record Opened : Type 0 where
  pub db : Handle
  pub exit_asked : Bool

pub record SqliteCalls : Type 0 where
  pub init_readable : Bool  -- the file with the tables can be opened
  pub exists : Bool  -- the file of the database
  pub open_ok : Bool  -- sqlite3_open gives SQLITE_OK
  pub init_ok : Bool  -- so does sqlite3_exec of the tables

-- `if (rc != SQLITE_OK) { …; sqlite3_close(db); qApp->exit(1); }`
abbrev give_up_if : Bool → Opened → Opened
give_up_if true o = record { db = closed; exit_asked = true }
give_up_if false o = o

-- The constructor; none is qFatal. The result of opening a new file is not looked at, and after a
-- failed opening the tables are still made.
pub open_database : SqliteCalls → Option Opened
open_database c =
    let fine : Opened = record { db = opened; exit_asked = false } in
    if not c.init_readable
    then none
    else some (
        if not c.exists
        then give_up_if (not c.init_ok) fine
        else give_up_if (not c.init_ok) (give_up_if (not c.open_ok) fine))

-- A row as sqlite3_exec hands it over: the names of the columns with their values, none for NULL.
abbrev pub Row : Type 0
Row = List (String × Option String)

abbrev pub value_text : Option String → String
value_text none = "#null"
value_text (some v) = v

abbrev pub insert_column : List (String × String) → String → String → List (String × String)
insert_column [] k v = (k, v) ∷ []
insert_column ((j, u) ∷ m) k v = if j == k then (j, v) ∷ m else (j, u) ∷ insert_column m k v

-- The callback's loop: obj[cols[i]] = argv[i] ? argv[i] : "#null"
unfoldable pub columns : List (String × String) → Row → List (String × String)
columns m [] = m
columns m ((c, v) ∷ row) = columns (insert_column m c (value_text v)) row

-- select: the rows up to the end or to an error, which is only printed
unfoldable pub select : List Row → List (List (String × String))
unfolding columns
select [] = []
select (row ∷ rows) = columns [] row ∷ select rows

unfoldable pub json_fields : Fields → List (String × String) → Fields
json_fields fs [] = fs
json_fields fs ((k, v) ∷ m) = json_fields (put fs k (str v)) m

unfoldable pub json_rows : List (List (String × String)) → List Json
unfolding json_fields
json_rows [] = []
json_rows (m ∷ ms) = obj (json_fields end m) ∷ json_rows ms

-- selectJson, before it is printed
unfoldable pub select_json : List Row → Json
unfolding select json_rows
select_json rows = array (json_rows (select rows))

-- ===== src/Client/Records.antt =====
-- The games that the client keeps (src/client/client.cpp: saveRecord, saveGameData; src/ui/qmlbackend.cpp:
-- playBlobRecord, saveBlobRecordToFile, reviewGameOverScene), in the tables of client/init.sql.
use free_kill.Base.{
  ℕ, suc, ◌+◌, String, Bool, Option, none, some, List, [], ◌∷◌, ◌++◌, ◌==◌, nat_eq, ltb, length,
  if◌then◌else◌,
}
use free_kill.Base.Int.{ℤ}
use free_kill.ClientSocket.{Bytes}

-- A row of myGameData but for its id
pub record Game : Type 0 where
  pub time : ℕ
  pub pid : ℤ
  pub server_addr : String
  pub mode : String
  pub general : String
  pub deputy_general : String
  pub role : String
  pub result : ℤ

-- qCompress, qUncompress, toHex, fromHex; what SQLite makes of x'...' and of hex(...); whether the
-- statement with the fields of a game in it is one that SQLite takes; the name in a recording.
pub record RecordEnv : Type 0 where
  pub compress : Bytes → Bytes
  pub uncompress : Bytes → Bytes
  pub to_hex : Bytes → Bytes
  pub from_hex : Bytes → Bytes
  pub blob : Bytes → Bytes
  pub sql_hex : Bytes → Bytes
  pub is_statement : Game → Bool
  pub record_name : Bytes → String  -- arr[1].toString()

-- A table from ids to blobs; `id` is its primary key.
abbrev pub Blobs : Type 0
Blobs = List (ℕ × Bytes)

pub record ClientDb : Type 0 where
  pub games : List (ℕ × Game)
  pub next_id : ℕ  -- AUTOINCREMENT
  pub room_data : Blobs
  pub recordings : Blobs

abbrev pub empty_db : ClientDb
empty_db = record { games = []; next_id = 1; room_data = []; recordings = [] }

unfoldable pub find_blob : Blobs → ℕ → Option Bytes
find_blob [] i = none
find_blob ((j, b) ∷ t) i = if j == i then some b else find_blob t i

-- How many rows have a larger id.
unfoldable pub newer : Blobs → ℕ → ℕ
newer [] i = 0
newer ((j, b) ∷ t) i = (if ltb i j then 1 else 0) + newer t i

unfoldable pub keep_rows : (ℕ → Bool) → Blobs → Blobs
keep_rows f [] = []
keep_rows f ((j, b) ∷ t) = if f j then (j, b) ∷ keep_rows f t else keep_rows f t

-- The trigger: the rows of the `limit` largest ids stay.
unfoldable pub delete_old : ℕ → Blobs → Blobs
delete_old limit t = keep_rows (λ j. ltb (newer t j) limit) t

abbrev pub insert_row : ℕ → Blobs → ℕ → Bytes → Option Bytes → Blobs
insert_row limit t i b none = delete_old limit (t ++ (i, b) ∷ [])
insert_row limit t i b (some old) = t

-- INSERT, which an id that is there already makes fail
unfoldable pub insert_blob : ℕ → Blobs → ℕ → Bytes → Blobs
insert_blob limit t i b = insert_row limit t i b (find_blob t i)

unfoldable pub insert_game : RecordEnv → ClientDb → Game → ClientDb
insert_game env db game =
    if env.is_statement game
    then record db { games = db.games ++ (db.next_id, game) ∷ []; next_id = suc db.next_id }
    else db

abbrev pub room_data_limit : ℕ
room_data_limit = 50000

abbrev pub recordings_limit : ℕ
recordings_limit = 5000

-- saveGameData: the id of the blobs is the number of games.
unfoldable pub save_game_data : RecordEnv → ClientDb → Game → Bytes → Bytes → ClientDb
save_game_data env db game room_data recording =
    let db₁ = insert_game env db game in
    let i = length db₁.games in
    record db₁ {
      room_data =
          insert_blob room_data_limit db₁.room_data i
            (env.blob (env.to_hex (env.compress room_data)));
      recordings =
          insert_blob recordings_limit db₁.recordings i
            (env.blob (env.to_hex (env.compress recording)));
    }

abbrev pub decode : RecordEnv → Option Bytes → Option Bytes
decode env none = none
decode env (some b) = some (env.uncompress (env.from_hex (env.sql_hex b)))

-- `SELECT hex(...) WHERE id = %1`, fromHex and qUncompress; none: the source reads result[0] of an
-- empty result.
unfoldable pub read_blob : RecordEnv → Blobs → ℕ → Option Bytes
read_blob env t i = decode env (find_blob t i)

-- playBlobRecord: what the replayer is made from
unfoldable pub play_blob_record : RecordEnv → ClientDb → ℕ → Option Bytes
play_blob_record env db i = read_blob env db.recordings i

-- reviewGameOverScene: what Lua's "Observe" is called with
unfoldable pub review_game_over_scene : RecordEnv → ClientDb → ℕ → Option Bytes
review_game_over_scene env db i = read_blob env db.room_data i

-- saveRecord: the compressed text under "recording/<name>.fk.rep"
pub save_record : RecordEnv → List (String × Bytes) → Bytes → String → List (String × Bytes)
save_record env files json fname = (fname, env.compress json) ∷ files

-- saveBlobRecordToFile: the name it answers, and the files
pub save_blob_record_to_file :
    RecordEnv → ClientDb → List (String × Bytes) → ℕ → Option (String × List (String × Bytes))
save_blob_record_to_file env db files i = elim (read_blob env db.recordings i) [
  | none ↦ none
  | some text ↦ some (env.record_name text, save_record env files text (env.record_name text))
]

-- ===== src/Client/Kept.antt =====
-- How long a saved game can be replayed (src/client/client.cpp, src/ui/qmlbackend.cpp).
use mathlib.Core.Path.{subst}
use free_kill.Base.{
  length, length-append, nat_eq, ℕ, suc, ◌+◌, ◌<◌, ◌≡◌, ap, true, some, List, [], ◌∷◌, ◌++◌, arith,
}
use free_kill.ClientSocket.{Bytes}
use free_kill.Client.Records.{
  Blobs, find_blob, insert_game, room_data_limit, recordings_limit, save_game_data, read_blob,
  play_blob_record, review_game_over_scene, Game, RecordEnv, ClientDb,
}
use free_kill.Client.Blobs.{IdsBelow, insert_blob-Holds, insert_blob-new, Holds}

pub record RecordLaws (env : RecordEnv) : Type 0 where
  pub uncompress-compress : (b : Bytes) → env.uncompress (env.compress b) ≡ b
  pub from_hex-sql_hex : (b : Bytes) → env.from_hex (env.sql_hex b) ≡ b
  pub blob-to_hex : (b : Bytes) → env.blob (env.to_hex b) ≡ b

-- The ids of the games are 1, 2, …, and no blob has a later id.
pub record IsSequential (db : ClientDb) : Type 0 where
  pub next : db.next_id ≡ suc (length db.games)
  pub room_ids : IdsBelow db.next_id db.room_data
  pub recording_ids : IdsBelow db.next_id db.recordings

-- A game with its room data and its recording
abbrev pub Saved : Type 0
Saved = Game × Bytes × Bytes

abbrev pub save_all : RecordEnv → ClientDb → List Saved → ClientDb
save_all env db [] = db
save_all env db ((g, room, rec) ∷ ss) = save_all env (save_game_data env db g room rec) ss

abbrev pub AllStatements : RecordEnv → List Saved → Type 0
AllStatements env [] = Unit {0}
AllStatements env ((g, room, rec) ∷ ss) = (env.is_statement g ≡ true) × AllStatements env ss

module _ (env : RecordEnv) where
  -- Both tables hold what was saved under `i`.
  record HoldsBoth (db : ClientDb) (i : ℕ) (a b : Bytes) (k : ℕ) : Type 0 where
    next : db.next_id ≡ suc (length db.games)
    room : Holds db.room_data db.next_id i a k
    recording : Holds db.recordings db.next_id i b k

  next_index :
      (db : ClientDb) (g : Game)
      → db.next_id ≡ suc (length db.games)
      → length (db.games ++ (db.next_id, g) ∷ []) ≡ db.next_id
  next_index db g e = omega (arith, length-append db.games ((db.next_id, g) ∷ []), e)

  save_first :
      (db : ClientDb) (g : Game) (room rec : Bytes)
      → IsSequential db
      → env.is_statement g ≡ true
      → HoldsBoth
          (save_game_data env db g room rec)
          db.next_id
          (env.blob (env.to_hex (env.compress room)))
          (env.blob (env.to_hex (env.compress rec)))
          0
  unfolding save_game_data insert_game
  save_first db g room rec s e = rw e (
      rw (next_index db g s.next) (record {
        next = omega (arith, next_index db g s.next);
        room = insert_blob-new room_data_limit db.room_data db.next_id _ (omega arith) s.room_ids;
        recording =
            insert_blob-new recordings_limit db.recordings db.next_id _ (omega arith)
              s.recording_ids;
      }))

  save_later :
      (db : ClientDb) (g : Game) (room rec : Bytes) (i : ℕ) (a b : Bytes) (k : ℕ)
      → env.is_statement g ≡ true
      → suc k < recordings_limit
      → HoldsBoth db i a b k
      → HoldsBoth (save_game_data env db g room rec) i a b (suc k)
  unfolding save_game_data insert_game
  save_later db g room rec i a b k e lt h = rw e (
      rw (next_index db g h.next) (record {
        next = omega (arith, next_index db g h.next);
        room =
            insert_blob-Holds room_data_limit db.room_data db.next_id i a _ k (omega arith) h.room;
        recording =
            insert_blob-Holds recordings_limit db.recordings db.next_id i b _ k lt h.recording;
      }))

  save_all-HoldsBoth :
      (db : ClientDb) (ss : List Saved) (i : ℕ) (a b : Bytes) (k : ℕ)
      → AllStatements env ss
      → k + length ss < recordings_limit
      → HoldsBoth db i a b k
      → HoldsBoth (save_all env db ss) i a b (k + length ss)
  save_all-HoldsBoth db [] i a b k st lt h = subst (HoldsBoth db i a b) (omega arith) h
  save_all-HoldsBoth db ((g, room, rec) ∷ ss) i a b k st lt h =
      subst (HoldsBoth (save_all env (save_game_data env db g room rec) ss) i a b)
        (let moved : suc k + length ss ≡ k + suc (length ss) = omega arith in moved)
        (save_all-HoldsBoth (save_game_data env db g room rec) ss i a b (suc k) st.1 (omega arith)
          (save_later db g room rec i a b k st.0 (omega arith) h))

  read_blob_lem :
      RecordLaws env
      → (t : Blobs) (i : ℕ) (b : Bytes)
      → find_blob t i ≡ some (env.blob (env.to_hex (env.compress b)))
      → read_blob env t i ≡ some b
  unfolding read_blob
  read_blob_lem laws t i b h = rw h (
      rw (laws.blob-to_hex (env.compress b))
        (rw (laws.from_hex-sql_hex (env.compress b)) (ap some (laws.uncompress-compress b))))

  -- A game that SQLite takes is kept: until 5000 more are saved, its number plays its recording and
  -- shows its room data, in a database whose ids are 1, 2, …
  pub saved_game_found :
      RecordLaws env
      → (db : ClientDb) (g : Game) (room rec : Bytes) (ss : List Saved) → IsSequential db
      → AllStatements env ((g, room, rec) ∷ ss)
      → length ss < recordings_limit
      → (play_blob_record env (save_all env db ((g, room, rec) ∷ ss)) db.next_id ≡ some rec)
        × (review_game_over_scene env (save_all env db ((g, room, rec) ∷ ss)) db.next_id
            ≡ some room)
  unfolding play_blob_record review_game_over_scene
  saved_game_found laws db g room rec ss s st lt =
      let kept =
        save_all-HoldsBoth (save_game_data env db g room rec) ss db.next_id _ _ 0 st.1 (omega arith)
          (save_first db g room rec s st.0) in
      (
        read_blob_lem laws _ db.next_id rec kept.recording.found,
        read_blob_lem laws _ db.next_id room kept.room.found,
      )

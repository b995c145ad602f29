-- ===== src/Sqlite/Columns.antt =====
-- The values that Sqlite3::selectJson (src/core/c-wrapper.cpp) shows of a table.
use free_kill.Base.{
  ℕ, zero, suc, String, Bool, true, false, Option, none, some, List, [], ◌∷◌, ◌==◌, string_eq, ◌≡◌,
  refl, ap, ◌∙◌, if◌then◌else◌, arith, eq_iff, Bool-cases, inl, inr,
}
use free_kill.Json.{Json, Fields, field, end, str, put, get, at, member, undefined}
use free_kill.Sqlite.{
  Row, value_text, insert_column, columns, select, json_fields, json_rows, select_json,
}

abbrev find_column : List (String × String) → String → Option String
find_column [] k = none
find_column ((j, v) ∷ m) k = if j == k then some v else find_column m k

-- What stands for a cell: its text, or "#null"
abbrev pub cell : Option String → Json
cell none = str "#null"
cell (some t) = str t

str-value_text : (v : Option String) → str (value_text v) ≡ cell v
str-value_text none = refl
str-value_text (some t) = refl

-- The last of the columns of a name, as a value of JSON
abbrev pub column_value : Row → String → Json → Json
column_value [] k d = d
column_value ((c, v) ∷ row) k d = column_value row k (if c == k then cell v else d)

abbrev as_json : Option String → Json
as_json none = undefined
as_json (some v) = str v

find_column-insert_column :
    (m : List (String × String)) (c v k : String)
    → find_column (insert_column m c v) k ≡ (if c == k then some v else find_column m k)
find_column-insert_column [] c v k = refl
find_column-insert_column ((j, u) ∷ m) c v k =
    ground (arith, eq_iff j c, eq_iff j k, eq_iff c k, find_column-insert_column m c v k)

columns_lem :
    (row : Row) (m : List (String × String)) (k : String)
    → as_json (find_column (columns m row) k) ≡ column_value row k (as_json (find_column m k))
unfolding columns
columns_lem [] m k = refl
columns_lem ((c, v) ∷ row) m k =
    columns_lem row (insert_column m c (value_text v)) k
    ∙ ap (column_value row k)
        (ap as_json (find_column-insert_column m c (value_text v) k) ∙ split (c == k))
  where
    split :
        (b : Bool)
        → as_json (if b then some (value_text v) else find_column m k)
          ≡ (if b then cell v else as_json (find_column m k))
    split true = str-value_text v
    split false = refl

member-put :
    (fs : Fields) (c k : String) (v : Json)
    → member (put fs c v) k ≡ (if c == k then v else member fs k)
member-put end c k v = refl
member-put (field j u fs) c k v =
    ground (arith, eq_iff j c, eq_iff j k, eq_iff c k, member-put fs c k v)

-- The keys of an object that `columns` makes are different.
abbrev Lacks : List (String × String) → String → Type 0
Lacks [] k = Unit {0}
Lacks ((j, v) ∷ m) k = ((j == k) ≡ false) × Lacks m k

abbrev DistinctKeys : List (String × String) → Type 0
DistinctKeys [] = Unit {0}
DistinctKeys ((j, v) ∷ m) = Lacks m j × DistinctKeys m

Lacks-insert_column :
    (m : List (String × String)) (c v k : String)
    → Lacks m k
    → (c == k) ≡ false
    → Lacks (insert_column m c v) k
Lacks-insert_column [] c v k h n = (n, tt)
Lacks-insert_column ((j, u) ∷ m) c v k h n = elim (Bool-cases (j == c)) [
  | inl e ↦ rw e h
  | inr e ↦ rw e (h.0, Lacks-insert_column m c v k h.1 n)
]

DistinctKeys-insert_column :
    (m : List (String × String)) (c v : String)
    → DistinctKeys m
    → DistinctKeys (insert_column m c v)
DistinctKeys-insert_column [] c v h = (tt, tt)
DistinctKeys-insert_column ((j, u) ∷ m) c v h = elim (Bool-cases (j == c)) [
  | inl e ↦ rw e h
  | inr e ↦
      let other : (c == j) ≡ false = ground (arith, eq_iff j c, eq_iff c j) in
      rw e (Lacks-insert_column m c v j h.0 other, DistinctKeys-insert_column m c v h.1)
]

columns-DistinctKeys :
    (row : Row) (m : List (String × String)) → DistinctKeys m → DistinctKeys (columns m row)
unfolding columns
columns-DistinctKeys [] m h = h
columns-DistinctKeys ((c, v) ∷ row) m h =
    columns-DistinctKeys row (insert_column m c (value_text v))
      (DistinctKeys-insert_column m c (value_text v) h)

Lacks-find_column :
    (m : List (String × String)) (j k : String) → Lacks m j → j ≡ k → find_column m k ≡ none
Lacks-find_column [] j k h e = refl
Lacks-find_column ((i, u) ∷ m) j k h e =
    ground (arith, h.0, eq_iff i j, eq_iff i k, Lacks-find_column m j k)

abbrev str_or : Option String → Json → Json
str_or none d = d
str_or (some v) d = str v

member-json_fields :
    (m : List (String × String)) (fs : Fields) (k : String)
    → DistinctKeys m
    → member (json_fields fs m) k ≡ str_or (find_column m k) (member fs k)
unfolding json_fields
member-json_fields [] fs k h = refl
member-json_fields ((j, v) ∷ m) fs k h = elim (Bool-cases (j == k)) [
  | inl e ↦
      member-json_fields m (put fs j (str v)) k h.1
      ∙ rw (Lacks-find_column m j k h.0 ((eq_iff j k).0 e)) (member-put fs j k (str v) ∙ rw e refl)
  | inr e ↦
      member-json_fields m (put fs j (str v)) k h.1
      ∙ rw e (ap (str_or (find_column m k)) (member-put fs j k (str v) ∙ rw e refl))
]

abbrev pub row_at : List Row → ℕ → Option Row
row_at [] i = none
row_at (r ∷ rows) zero = some r
row_at (r ∷ rows) (suc i) = row_at rows i

str_or_undefined : (o : Option String) → str_or o undefined ≡ as_json o
str_or_undefined none = refl
str_or_undefined (some v) = refl

row_lem :
    (row : Row) (k : String)
    → member (json_fields end (columns [] row)) k ≡ column_value row k undefined
row_lem row k =
    member-json_fields (columns [] row) end k (columns-DistinctKeys row [] tt)
    ∙ str_or_undefined (find_column (columns [] row) k)
    ∙ columns_lem row [] k

-- In what selectJson prints, the object at the place of a row has under each name the value of the
-- last of the row's columns of that name, or "#null" for NULL, and nothing under other names.
pub select_json-column_value :
    (rows : List Row) (i : ℕ) (row : Row) (k : String)
    → row_at rows i ≡ some row
    → get (at (select_json rows) i) k ≡ column_value row k undefined
unfolding select_json select json_rows
select_json-column_value [] i row k h = cc
select_json-column_value (r ∷ rows) zero row k h = row_lem r k ∙ ap (λ o. column_of o k) h
  where
    column_of : Option Row → String → Json
    column_of none k = undefined
    column_of (some r) k = column_value r k undefined
select_json-column_value (r ∷ rows) (suc i) row k h = select_json-column_value rows i row k h

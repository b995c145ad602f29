-- ===== src/Json.antt =====
-- JSON values as QJsonValue hands them out: the payload of every packet, the server's
-- configuration and a room's settings. Parsing and printing of JSON text is Qt's own and stays a
-- parameter (`Env.from_json` and `from_json` arguments) wherever the program calls it.
use Prim.Native.Nat.{◌^◌}
use free_kill.Base.{
  if◌then◌else◌, ltb, ◌==◌, nat_eq, string_eq, int_eq, ℕ, zero, suc, String, Bool, true, false,
  Option, none, some, List, [], ◌∷◌,
}
use free_kill.Base.Int.{ℤ, pos, negsuc}

mutual
  -- `undefined` is what a missing key or index reads as.
  pub data Json : Type 0 where
    undefined : Json
    null : Json
    bool : Bool → Json
    num : ℤ → Json
    str : String → Json
    arr : Items → Json
    obj : Fields → Json

  pub data Items : Type 0 where
    nil : Items
    cons : Json → Items → Items

  pub data Fields : Type 0 where
    end : Fields
    field : String → Json → Fields → Fields

abbrev items : List Json → Items
items [] = nil
items (x ∷ xs) = cons x (items xs)

-- QJsonArray from its elements
abbrev pub array : List Json → Json
array xs = arr (items xs)

abbrev item : Items → ℕ → Json
item nil i = undefined
item (cons x xs) zero = x
item (cons x xs) (suc i) = item xs i

-- QJsonValue::operator[](qsizetype)
abbrev pub at : Json → ℕ → Json
at (arr xs) i = item xs i
at _ i = undefined

abbrev pub member : Fields → String → Json
member end k = undefined
member (field j v fs) k = if j == k then v else member fs k

-- QJsonValue::operator[](QString)
abbrev pub get : Json → String → Json
get (obj fs) k = member fs k
get _ k = undefined

abbrev items_size : Items → ℕ
items_size nil = 0
items_size (cons x xs) = suc (items_size xs)

-- toArray().size(): no array counts as an empty one
abbrev pub array_size : Json → ℕ
array_size (arr xs) = items_size xs
array_size _ = 0

abbrev pub is_array : Json → Bool
is_array (arr xs) = true
is_array _ = false

abbrev pub is_undefined : Json → Bool
is_undefined undefined = true
is_undefined _ = false

-- The numbers of w + 1 bits with a sign
abbrev fits : ℕ → ℤ → Bool
fits w (pos n) = ltb n (2 ^ w)
fits w (negsuc n) = ltb n (2 ^ w)

-- toInt(), toInteger(), toString(), toBool(): a value of another type reads as 0, 0, "" and false, and
-- a number out of range as 0.
abbrev pub to_int : Json → ℤ
to_int (num n) = if fits 31 n then n else pos 0
to_int _ = pos 0

abbrev pub to_integer : Json → ℤ
to_integer (num n) = if fits 63 n then n else pos 0
to_integer _ = pos 0

abbrev pub to_string : Json → String
to_string (str s) = s
to_string _ = ""

abbrev pub to_bool : Json → Bool
to_bool (bool b) = b
to_bool _ = false

abbrev item_list : Items → List Json
item_list nil = []
item_list (cons x xs) = x ∷ item_list xs

-- toArray(), for the loops over it
abbrev pub to_list : Json → List Json
to_list (arr xs) = item_list xs
to_list _ = []

-- QJsonObject::operator[]= : the value of a key is set
abbrev pub put : Fields → String → Json → Fields
put end k v = field k v end
put (field j u fs) k v = if j == k then field j v fs else field j u (put fs k v)

-- .object() of a document: empty for whatever is no object
abbrev pub fields_of : Option Json → Fields
fields_of (some (obj fields)) = fields
fields_of _ = end

abbrev pub as_array : Option Json → Json
as_array (some (arr xs)) = arr xs
as_array _ = array []

-- a document as a value; a null document is undefined
abbrev pub fields_json : Option Json → Json
fields_json none = undefined
fields_json (some doc) = doc

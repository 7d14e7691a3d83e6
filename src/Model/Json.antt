-- ===== src/Model/Json.antt =====
-- crates/orkia-model/src/lib.rs: canonical JSON. A `serde_json::Number` is the text that `to_string`
-- writes of it, and `serde_json::to_string` of a string is a parameter.
pub mod Order
use boop_orkia_cli.Prelude.{
  Bool, true, false, List, [], ◌∷◌, ◌++◌, Option, none, some, nat_ord, list_ord,
}
use boop_orkia_cli.Prelude.Sets.{sort}
use boop_orkia_cli.Prelude.Maps.{keys, lookup}
use boop_orkia_cli.Prelude.Text.{Text, text, utf8}
use boop_orkia_cli.Errors.{Result, ok, err, invalid, ◌>>=◌}
use boop_orkia_cli.Model.Ids.{Bytes}

-- `serde_json::Value`
mutual
  pub data Json : Type 0 where
    null : Json
    boolean : Bool → Json
    number string : Text → Json
    array : Items → Json
    object : Fields → Json

  pub data Items : Type 0 where
    nil : Items
    item : Json → Items → Items

  pub data Fields : Type 0 where
    end : Fields
    field : Text → Json → Fields → Fields

-- A comma in front of every element but the first.
unfoldable pub separator : Bool → Bytes
separator true = []
separator false = text ","

-- The comma, what is written after it, and the rest of the elements.
unfoldable pub join_element : Bool → Result Bytes → Result Bytes → Result Bytes
join_element first written rest = do
  here ← written
  there ← rest
  ok (separator first ++ here ++ there)

module _ (encode_string : Text → Result Bytes) where
  -- `"key":value`
  unfoldable pub write_entry : Text → Result Bytes → Result Bytes
  write_entry key written = do
    quoted ← encode_string key
    value ← written
    ok (quoted ++ text ":" ++ value)

  -- One round of the loop. `values[key]` panics on a key that is not there.
  abbrev pub write_found : Bool → Text → Option (Result Bytes) → Result Bytes → Result Bytes
  write_found first key none rest = err (invalid key)
  write_found first key (some written) rest = join_element first (write_entry key written) rest

  -- The loop over the sorted keys, with what each value is written as.
  unfoldable pub write_entries : Bool → List (Text × Result Bytes) → List Text → Result Bytes
  write_entries first values [] = ok []
  write_entries first values (key ∷ rest) =
      write_found first key (lookup key values) (write_entries false values rest)

  -- The bytes between the braces of an object.
  unfoldable pub write_sorted : List (Text × Result Bytes) → Result Bytes
  write_sorted values = write_entries true values (sort (keys values))

  unfoldable mutual
    pub write_canonical_json : Json → Result Bytes
    write_canonical_json null = ok (text "null")
    write_canonical_json (boolean true) = ok (text "true")
    write_canonical_json (boolean false) = ok (text "false")
    write_canonical_json (number n) = ok (utf8 n)
    write_canonical_json (string s) = encode_string s
    write_canonical_json (array items) = do
      inside ← write_items true items
      ok (text "[" ++ inside ++ text "]")
    write_canonical_json (object fields) = do
      inside ← write_sorted (write_values fields)
      ok (text "{" ++ inside ++ text "}")

    pub write_items : Bool → Items → Result Bytes
    write_items first nil = ok []
    write_items first (item v vs) =
        join_element first (write_canonical_json v) (write_items false vs)

    pub write_values : Fields → List (Text × Result Bytes)
    write_values end = []
    write_values (field key v fs) = (key, write_canonical_json v) ∷ write_values fs

  -- `canonical_json`, of a value that Serde has made JSON of, or failed to.
  unfoldable pub canonical_json : Result Json → Result Bytes
  canonical_json serialized = serialized >>= write_canonical_json

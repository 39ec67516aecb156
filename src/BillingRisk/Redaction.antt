-- ===== src/BillingRisk/Redaction.antt =====
-- What a snapshot that crates/billing-risk-core/src/lib.rs has redacted shows along a path of keys and indices.
use world_infra.Prelude.{
  ℕ, zero, suc, ◌≡◌, refl, ap, ◌∙◌, Option, none, some, List, [], ◌∷◌, Bool-cases, inl, inr,
  if◌then◌else◌,
}
use world_infra.Text.{Text, text_eq}
use world_infra.Text.Laws.{text_eq→eq}
use world_infra.BillingRisk.{
  Value, null, bool, number, string, array, object, Items, no_items, item, Entries, no_entries,
  entry, redacted_text, is_sensitive_snapshot_key, redact_json_snapshot, redact_items,
  redact_entries,
}

-- A step into a value: the entry of a key, or the element at an index.
pub data Step : Type 0 where
  key : Text → Step
  index : ℕ → Step

unfoldable pub get_entry : Text → Entries → Option Value
get_entry k no_entries = none
get_entry k (entry j value map) =
    let rest = get_entry k map in if text_eq k j then some value else rest

unfoldable pub get_item : ℕ → Items → Option Value
get_item n no_items = none
get_item zero (item value items) = some value
get_item (suc n) (item value items) = get_item n items

unfoldable pub get : Step → Value → Option Value
get (key k) (object map) = get_entry k map
get (index n) (array items) = get_item n items
get s v = none

abbrev pub then_get : Option Value → (Value → Option Value) → Option Value
then_get none f = none
then_get (some v) f = f v

unfoldable pub get_path : List Step → Value → Option Value
get_path [] v = some v
get_path (s ∷ path) v = then_get (get s v) (get_path path)

-- What stands at a step of a redacted value, when `found` stands there in the value.
abbrev pub shown : List Text → Step → Value → Value
shown keys (key k) v =
    if is_sensitive_snapshot_key k keys then redacted_text else redact_json_snapshot v keys
shown keys (index n) v = redact_json_snapshot v keys

abbrev pub map_value : (Value → Value) → Option Value → Option Value
map_value f none = none
map_value f (some v) = some (f v)

get_entry-redact :
    (keys : List Text) (k : Text) (map : Entries)
    → get_entry k (redact_entries map keys) ≡ map_value (shown keys (key k)) (get_entry k map)
unfolding redact_json_snapshot get_entry
get_entry-redact keys k no_entries = refl
get_entry-redact keys k (entry j value map) = elim (Bool-cases (text_eq k j)) [
  | inl here ↦ rw (here, text_eq→eq k j here) refl
  | inr past ↦ rw past (get_entry-redact keys k map)
]

get_item-redact :
    (keys : List Text) (n : ℕ) (items : Items)
    → get_item n (redact_items items keys)
      ≡ map_value (λ v. redact_json_snapshot v keys) (get_item n items)
unfolding redact_json_snapshot get_item
get_item-redact keys n no_items = refl
get_item-redact keys zero (item value items) = refl
get_item-redact keys (suc n) (item value items) = get_item-redact keys n items

get-redact :
    (keys : List Text) (s : Step) (v : Value)
    → get s (redact_json_snapshot v keys) ≡ map_value (shown keys s) (get s v)
unfolding redact_json_snapshot get
get-redact keys (key k) (object map) = get_entry-redact keys k map
get-redact keys (index n) (array items) = get_item-redact keys n items
get-redact keys (key k) (array items) = refl
get-redact keys (key k) null = refl
get-redact keys (key k) (bool b) = refl
get-redact keys (key k) (number n) = refl
get-redact keys (key k) (string s) = refl
get-redact keys (index n) (object map) = refl
get-redact keys (index n) null = refl
get-redact keys (index n) (bool b) = refl
get-redact keys (index n) (number m) = refl
get-redact keys (index n) (string s) = refl

-- What a redacted snapshot shows along a path, told from the snapshot: nothing where it has nothing;
-- from the first sensitive key on, the text that stands for it and nothing below; else what is there,
-- redacted.
unfoldable pub shown_path : List Text → List Step → Value → Option Value
shown_path keys [] v = some (redact_json_snapshot v keys)
shown_path keys (key k ∷ path) v = then_get (get (key k) v) (λ found.
    if is_sensitive_snapshot_key k keys
    then get_path path redacted_text
    else shown_path keys path found)
shown_path keys (index n ∷ path) v = then_get (get (index n) v) (shown_path keys path)

onward_key :
    (keys : List Text) (k : Text) (path : List Step) (o : Option Value)
    → ((v : Value) → get_path path (redact_json_snapshot v keys) ≡ shown_path keys path v)
    → then_get (map_value (shown keys (key k)) o) (get_path path)
      ≡ then_get o (λ found.
        if is_sensitive_snapshot_key k keys
        then get_path path redacted_text
        else shown_path keys path found)
onward_key keys k path none h = refl
onward_key keys k path (some found) h = elim (Bool-cases (is_sensitive_snapshot_key k keys)) [
  | inl secret ↦ rw secret refl
  | inr plain ↦ rw plain (h found)
]

onward_index :
    (keys : List Text) (n : ℕ) (path : List Step) (o : Option Value)
    → ((v : Value) → get_path path (redact_json_snapshot v keys) ≡ shown_path keys path v)
    → then_get (map_value (shown keys (index n)) o) (get_path path)
      ≡ then_get o (shown_path keys path)
onward_index keys n path none h = refl
onward_index keys n path (some found) h = h found

-- Along a path a redacted snapshot has what is told from the snapshot.
get_path-redact :
    (keys : List Text) (path : List Step) (v : Value)
    → get_path path (redact_json_snapshot v keys) ≡ shown_path keys path v
unfolding get_path shown_path
get_path-redact keys [] v = refl
get_path-redact keys (key k ∷ path) v =
    rw (get-redact keys (key k) v)
      (onward_key keys k path (get (key k) v) (get_path-redact keys path))
get_path-redact keys (index n ∷ path) v =
    rw (get-redact keys (index n) v)
      (onward_index keys n path (get (index n) v) (get_path-redact keys path))

-- What is seen of a value at once: a value without parts is itself, an array is its length, and an object
-- its keys in their order.
pub data Shape : Type 0 where
  leaf : Value → Shape
  array_of : ℕ → Shape
  object_of : List Text → Shape

unfoldable pub count_items : Items → ℕ
count_items no_items = 0
count_items (item value items) = suc (count_items items)

unfoldable pub keys_of : Entries → List Text
keys_of no_entries = []
keys_of (entry k value map) = k ∷ keys_of map

unfoldable pub shape : Value → Shape
shape (array items) = array_of (count_items items)
shape (object map) = object_of (keys_of map)
shape v = leaf v

abbrev pub shape_of : Option Value → Option Shape
shape_of none = none
shape_of (some v) = some (shape v)

-- What is seen at the end of a path.
unfoldable pub shape_at : List Step → Value → Option Shape
shape_at path v = shape_of (get_path path v)

abbrev pub then_shape : Option Value → (Value → Option Shape) → Option Shape
then_shape none f = none
then_shape (some v) f = f v

-- What is to be seen at the end of a path when the entries of sensitive keys hold the fixed text.
unfoldable pub shown_shape : List Text → List Step → Value → Option Shape
shown_shape keys [] v = some (shape v)
shown_shape keys (key k ∷ path) v = then_shape (get (key k) v) (λ found.
    if is_sensitive_snapshot_key k keys
    then shape_at path redacted_text
    else shown_shape keys path found)
shown_shape keys (index n ∷ path) v = then_shape (get (index n) v) (shown_shape keys path)

count_items-redact :
    (keys : List Text) (items : Items) → count_items (redact_items items keys) ≡ count_items items
unfolding redact_json_snapshot count_items
count_items-redact keys no_items = refl
count_items-redact keys (item value items) = ap suc (count_items-redact keys items)

keys_of-redact :
    (keys : List Text) (map : Entries) → keys_of (redact_entries map keys) ≡ keys_of map
unfolding redact_json_snapshot keys_of
keys_of-redact keys no_entries = refl
keys_of-redact keys (entry k value map) = ap (k ∷◌) (keys_of-redact keys map)

shape-redact : (keys : List Text) (v : Value) → shape (redact_json_snapshot v keys) ≡ shape v
unfolding redact_json_snapshot shape
shape-redact keys null = refl
shape-redact keys (bool b) = refl
shape-redact keys (number n) = refl
shape-redact keys (string s) = refl
shape-redact keys (array items) = ap array_of (count_items-redact keys items)
shape-redact keys (object map) = ap object_of (keys_of-redact keys map)

shape_of-key :
    (keys : List Text) (k : Text) (path : List Step) (o : Option Value)
    → ((v : Value) → shape_of (shown_path keys path v) ≡ shown_shape keys path v)
    → shape_of (
        then_get o (λ found.
          if is_sensitive_snapshot_key k keys
          then get_path path redacted_text
          else shown_path keys path found))
      ≡ then_shape o (λ found.
        if is_sensitive_snapshot_key k keys
        then shape_at path redacted_text
        else shown_shape keys path found)
unfolding shape_at
shape_of-key keys k path none h = refl
shape_of-key keys k path (some found) h = elim (Bool-cases (is_sensitive_snapshot_key k keys)) [
  | inl secret ↦ rw secret refl
  | inr plain ↦ rw plain (h found)
]

shape_of-index :
    (keys : List Text) (path : List Step) (o : Option Value)
    → ((v : Value) → shape_of (shown_path keys path v) ≡ shown_shape keys path v)
    → shape_of (then_get o (shown_path keys path)) ≡ then_shape o (shown_shape keys path)
shape_of-index keys path none h = refl
shape_of-index keys path (some found) h = h found

shape_of-shown_path :
    (keys : List Text) (path : List Step) (v : Value)
    → shape_of (shown_path keys path v) ≡ shown_shape keys path v
unfolding shown_path shown_shape
shape_of-shown_path keys [] v = ap some (shape-redact keys v)
shape_of-shown_path keys (key k ∷ path) v =
    shape_of-key keys k path (get (key k) v) (shape_of-shown_path keys path)
shape_of-shown_path keys (index n ∷ path) v =
    shape_of-index keys path (get (index n) v) (shape_of-shown_path keys path)

-- At the end of every path of keys and indices a redacted snapshot shows what the snapshot does: nothing, the
-- same null, Boolean, number or text, an array of the same length, or an object of the same keys; but on a
-- path through a sensitive key that is there, only the fixed text at the first such key and nothing below it.
pub shape_at-redact :
    (keys : List Text) (path : List Step) (v : Value)
    → shape_at path (redact_json_snapshot v keys) ≡ shown_shape keys path v
unfolding shape_at
shape_at-redact keys path v =
    ap shape_of (get_path-redact keys path v) ∙ shape_of-shown_path keys path v

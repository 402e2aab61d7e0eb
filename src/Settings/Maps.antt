-- ===== src/Settings/Maps.antt =====
-- The map variables of src/config/settings.py.
use ai_storybook_storage_ser.Base.{
  ℤ, Text, ◌≡◌, refl, ◌⊎◌, inl, inr, Option, none, some, [], ◌∷◌, text_eq, text_eq_iff, strip,
  Bool-cases,
}
use ai_storybook_storage_ser.Settings.{Dict, lookup}
use ai_storybook_storage_ser.Settings.Parsers.{
  Fault, json_decode_error, type_error, value_error, overflow_error, Outcome, value, raised, ◌>>=◌,
  Item, Json, array, object, string, scalar, Loads, strs, text_entries, or_no_texts, parse_json_map,
  ints, int_entries, or_no_ints, parse_json_int_map,
}

-- The map of an item that is there.
abbrev pub str_of : Option Item → Option Text
str_of none = none
str_of (some item) = some item.str

-- The integer of an item that is there.
abbrev pub IntOf : Option Item → Option ℤ → Type 0
IntOf none o = o ≡ none
IntOf (some item) o = (n : ℤ) × (item.int ≡ value n) × (o ≡ some n)

lookup-strs : (k : Text) (d : Dict Item) → lookup k (strs d) ≡ str_of (lookup k d)
unfolding lookup
lookup-strs k [] = refl
lookup-strs k ((j, item) ∷ d) = elim (Bool-cases (text_eq k j)) [
  | inl same ↦ rw same refl
  | inr other ↦ rw other (lookup-strs k d)
]

-- What `except` catches in each of the two parsers.
abbrev pub IsCaughtText : Fault → Type 0
IsCaughtText json_decode_error = Unit
IsCaughtText type_error = Unit
IsCaughtText e = ⊥

abbrev pub IsCaughtInt : Fault → Type 0
IsCaughtInt value_error = Unit
IsCaughtInt e = IsCaughtText e

abbrev pub IsObject : Json → Type 0
IsObject (object d) = Unit
IsObject j = ⊥

-- What the map of texts is read as.
pub data TextMap (loads : Loads) (raw : Text) : Outcome (Dict Text) → Type 0 where
  blank : strip raw ≡ [] → TextMap loads raw (value [])
  refused :
      (e : Fault) → loads (strip raw) ≡ raised e → IsCaughtText e → TextMap loads raw (value [])
  crashed :
      (e : Fault)
      → loads (strip raw) ≡ raised e
      → (IsCaughtText e → ⊥)
      → TextMap loads raw (raised e)
  no_object :
      (j : Json) → loads (strip raw) ≡ value j → (IsObject j → ⊥) → TextMap loads raw (value [])
  entries :
      (d : Dict Item) (r : Dict Text)
      → loads (strip raw) ≡ value (object d)
      → ((k : Text) → lookup k r ≡ str_of (lookup k d))
      → TextMap loads raw (value r)

read_texts-TextMap :
    (loads : Loads) (raw : Text) (o : Outcome Json)
    → loads (strip raw) ≡ o
    → TextMap loads raw (or_no_texts (do parsed ← o; value (text_entries parsed)))
read_texts-TextMap loads raw (value (object d)) e =
    TextMap.entries d (strs d) e (λ k. lookup-strs k d)
read_texts-TextMap loads raw (value (array items)) e = TextMap.no_object (array items) e (λ h. h)
read_texts-TextMap loads raw (value (string s)) e = TextMap.no_object (string s) e (λ h. h)
read_texts-TextMap loads raw (value scalar) e = TextMap.no_object scalar e (λ h. h)
read_texts-TextMap loads raw (raised json_decode_error) e = TextMap.refused json_decode_error e tt
read_texts-TextMap loads raw (raised type_error) e = TextMap.refused type_error e tt
read_texts-TextMap loads raw (raised value_error) e = TextMap.crashed value_error e (λ h. h)
read_texts-TextMap loads raw (raised overflow_error) e = TextMap.crashed overflow_error e (λ h. h)
read_texts-TextMap loads raw (raised Fault.recursion_error) e =
    TextMap.crashed Fault.recursion_error e (λ h. h)

-- `_parse_json_map` gives the entries of a JSON object, each key with the text of its value; it gives
-- the empty map for a blank text, for one that the JSON parser refuses and for any other JSON value.
pub parse_json_map-TextMap :
    (loads : Loads) (raw : Text) → TextMap loads raw (parse_json_map loads raw)
unfolding parse_json_map
parse_json_map-TextMap loads raw = elim (Bool-cases (text_eq (strip raw) [])) [
  | inl empty ↦ rw empty (TextMap.blank ((text_eq_iff (strip raw) []).0 empty))
  | inr full ↦ rw full (read_texts-TextMap loads raw (loads (strip raw)) refl)
]

-- The entry stands in the dict.
abbrev pub HasEntry : Text → Item → Dict Item → Type 0
HasEntry k item [] = ⊥
HasEntry k item ((j, i) ∷ d) = ((k ≡ j) × (item ≡ i)) ⊎ HasEntry k item d

-- Every key has the integer of its item, or an item has none.
abbrev Ints : Dict Item → Outcome (Dict ℤ) → Type 0
Ints d (value r) = (k : Text) → IntOf (lookup k d) (lookup k r)
Ints d (raised e) = (k : Text) × ((item : Item) × HasEntry k item d × (item.int ≡ raised e))

ints-Ints : (d : Dict Item) → Ints d (ints d)
unfolding ints lookup
ints-Ints [] = λ k. refl
ints-Ints ((j, item) ∷ d) = first item.int refl (ints d) (ints-Ints d)
  where
    first :
        (n : Outcome ℤ)
        → item.int ≡ n
        → (rest : Outcome (Dict ℤ)) → Ints d rest
        → Ints ((j, item) ∷ d) (do m ← n; r ← rest; value ((j, m) ∷ r))
    first (raised e) h rest hs = (j, (item, inl (refl, refl), h))
    first (value n) h (raised e) (k, (i, there, bad)) = (k, (i, inr there, bad))
    first (value n) h (value r) hs = λ k. elim (Bool-cases (text_eq k j)) [
      | inl same ↦ rw same (n, h, refl)
      | inr other ↦ rw other (hs k)
    ]

-- What the map of integers is read as.
pub data IntMap (loads : Loads) (raw : Text) : Outcome (Dict ℤ) → Type 0 where
  blank : strip raw ≡ [] → IntMap loads raw (value [])
  refused : (e : Fault) → loads (strip raw) ≡ raised e → IsCaughtInt e → IntMap loads raw (value [])
  crashed :
      (e : Fault) → loads (strip raw) ≡ raised e → (IsCaughtInt e → ⊥) → IntMap loads raw (raised e)
  no_object :
      (j : Json) → loads (strip raw) ≡ value j → (IsObject j → ⊥) → IntMap loads raw (value [])
  entries :
      (d : Dict Item) (r : Dict ℤ)
      → loads (strip raw) ≡ value (object d)
      → ((k : Text) → IntOf (lookup k d) (lookup k r))
      → IntMap loads raw (value r)
  dropped :
      (d : Dict Item) (k : Text) (item : Item) (e : Fault)
      → loads (strip raw) ≡ value (object d)
      → HasEntry k item d
      → item.int ≡ raised e
      → IsCaughtInt e
      → IntMap loads raw (value [])
  escaped :
      (d : Dict Item) (k : Text) (item : Item) (e : Fault)
      → loads (strip raw) ≡ value (object d)
      → HasEntry k item d
      → item.int ≡ raised e
      → (IsCaughtInt e → ⊥)
      → IntMap loads raw (raised e)

caught :
    (e : Fault)
    → (IsCaughtInt e × (or_no_ints (raised e) ≡ value []))
      ⊎ ((IsCaughtInt e → ⊥) × (or_no_ints (raised e) ≡ raised e))
caught json_decode_error = inl (tt, refl)
caught type_error = inl (tt, refl)
caught value_error = inl (tt, refl)
caught overflow_error = inr ((λ h. h), refl)
caught Fault.recursion_error = inr ((λ h. h), refl)

object-IntMap :
    (loads : Loads) (raw : Text) (d : Dict Item) (o : Outcome (Dict ℤ))
    → loads (strip raw) ≡ value (object d)
    → Ints d o
    → IntMap loads raw (or_no_ints o)
object-IntMap loads raw d (value r) e h = IntMap.entries d r e h
object-IntMap loads raw d (raised x) e (k, (item, there, bad)) = elim (caught x) [
  | inl (c, is_empty) ↦ rw is_empty (IntMap.dropped d k item x e there bad c)
  | inr (c, is_raised) ↦ rw is_raised (IntMap.escaped d k item x e there bad c)
]

read_ints-IntMap :
    (loads : Loads) (raw : Text) (o : Outcome Json)
    → loads (strip raw) ≡ o
    → IntMap loads raw (or_no_ints (do parsed ← o; int_entries parsed))
unfolding int_entries
read_ints-IntMap loads raw (value (object d)) e = object-IntMap loads raw d (ints d) e (ints-Ints d)
read_ints-IntMap loads raw (value (array items)) e = IntMap.no_object (array items) e (λ h. h)
read_ints-IntMap loads raw (value (string s)) e = IntMap.no_object (string s) e (λ h. h)
read_ints-IntMap loads raw (value scalar) e = IntMap.no_object scalar e (λ h. h)
read_ints-IntMap loads raw (raised x) e = elim (caught x) [
  | inl (c, is_empty) ↦ rw is_empty (IntMap.refused x e c)
  | inr (c, is_raised) ↦ rw is_raised (IntMap.crashed x e c)
]

-- `_parse_json_int_map` gives all the entries of a JSON object, each key with the integer of its value,
-- or the empty map: one value without an integer drops all entries. It gives the empty map, too, for a
-- blank text, for one that the JSON parser refuses and for any other JSON value. What it does not catch,
-- such as the `OverflowError` of an infinite value, it raises.
pub parse_json_int_map-IntMap :
    (loads : Loads) (raw : Text) → IntMap loads raw (parse_json_int_map loads raw)
unfolding parse_json_int_map
parse_json_int_map-IntMap loads raw = elim (Bool-cases (text_eq (strip raw) [])) [
  | inl empty ↦ rw empty (IntMap.blank ((text_eq_iff (strip raw) []).0 empty))
  | inr full ↦ rw full (read_ints-IntMap loads raw (loads (strip raw)) refl)
]

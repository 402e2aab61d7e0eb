-- ===== src/Settings/Parsers.antt =====
-- src/config/settings.py: the parsers of the list and map variables.
use ai_storybook_storage_ser.Base.{
  ℤ, Text, codes, List, [], ◌∷◌, map, text_eq, starts_with, strip, split, if◌then◌else◌,
}
use ai_storybook_storage_ser.Settings.{Dict, keys}

-- What Python raises here. `JSONDecodeError` is a `ValueError`.
pub data Fault : Type 0 where
  json_decode_error : Fault
  type_error : Fault
  value_error : Fault
  overflow_error : Fault
  recursion_error : Fault

pub data Outcome (A : Type 0) : Type 0 where
  value : A → Outcome A
  raised : Fault → Outcome A

infixl 5 ◌>>=◌
abbrev pub ◌>>=◌ : {A B : Type 0} → Outcome A → (A → Outcome B) → Outcome B
value a >>= f = f a
raised e >>= f = raised e

-- An item of a parsed JSON text, by what `str` and `int` give for it.
pub record Item : Type 0 where
  pub str : Text
  pub int : Outcome ℤ

-- What `json.loads` returns: a list, a dict, a str, or something that is not iterable.
pub data Json : Type 0 where
  array : List Item → Json
  object : Dict Item → Json
  string : Text → Json
  scalar : Json

abbrev pub Loads : Type 0
Loads = Text → Outcome Json

abbrev singletons : Text → List Text
singletons [] = []
singletons (c ∷ s) = (c ∷ []) ∷ singletons s

-- `str(x) for x in parsed`
unfoldable pub iterated : Json → Outcome (List Text)
unfolding keys
iterated (array items) = value (map (λ item. item.str) items)
iterated (object d) = value (keys d)
iterated (string s) = value (singletons s)
iterated scalar = raised type_error

-- `[x.strip() for x in xs if x.strip()]`
unfoldable pub stripped : List Text → List Text
unfolding strip
stripped [] = []
stripped (x ∷ xs) = let rest = stripped xs in if text_eq (strip x) [] then rest else strip x ∷ rest

-- `[s.strip() for s in raw.split(",") if s.strip()]`
unfoldable pub parse_csv : Text → List Text
unfolding stripped
parse_csv raw = stripped (split b',' raw)

-- `except (json.JSONDecodeError, TypeError): pass`
abbrev pub or_csv : Text → Outcome (List Text) → Outcome (List Text)
or_csv raw (value xs) = value xs
or_csv raw (raised json_decode_error) = value (parse_csv raw)
or_csv raw (raised type_error) = value (parse_csv raw)
or_csv raw (raised e) = raised e

unfoldable pub parse_json_or_csv_list : Loads → Text → Outcome (List Text)
unfolding parse_csv iterated
parse_json_or_csv_list loads padded =
    let raw = strip padded in
    if text_eq raw []
    then value []
    else if starts_with raw (codes "[")
    then or_csv raw (do parsed ← loads raw; xs ← iterated parsed; value (stripped xs))
    else value (parse_csv raw)

abbrev pub strs : Dict Item → Dict Text
strs [] = []
strs ((k, item) ∷ d) = (k, item.str) ∷ strs d

-- `{str(k): str(v) for k, v in parsed.items()}` of a dict
abbrev pub text_entries : Json → Dict Text
text_entries (object d) = strs d
text_entries (array _) = []
text_entries (string _) = []
text_entries scalar = []

-- `except (json.JSONDecodeError, TypeError): pass`
abbrev pub or_no_texts : Outcome (Dict Text) → Outcome (Dict Text)
or_no_texts (value d) = value d
or_no_texts (raised json_decode_error) = value []
or_no_texts (raised type_error) = value []
or_no_texts (raised e) = raised e

unfoldable pub parse_json_map : Loads → Text → Outcome (Dict Text)
parse_json_map loads padded =
    let raw = strip padded in
    if text_eq raw []
    then value []
    else or_no_texts (do parsed ← loads raw; value (text_entries parsed))

-- `{str(k): int(v) for k, v in parsed.items()}`
unfoldable pub ints : Dict Item → Outcome (Dict ℤ)
ints [] = value []
ints ((k, item) ∷ d) = do n ← item.int; rest ← ints d; value ((k, n) ∷ rest)

unfoldable pub int_entries : Json → Outcome (Dict ℤ)
unfolding ints
int_entries (object d) = ints d
int_entries (array _) = value []
int_entries (string _) = value []
int_entries scalar = value []

-- `except (json.JSONDecodeError, TypeError, ValueError): pass`
abbrev pub or_no_ints : Outcome (Dict ℤ) → Outcome (Dict ℤ)
or_no_ints (value d) = value d
or_no_ints (raised json_decode_error) = value []
or_no_ints (raised type_error) = value []
or_no_ints (raised value_error) = value []
or_no_ints (raised e) = raised e

unfoldable pub parse_json_int_map : Loads → Text → Outcome (Dict ℤ)
unfolding int_entries
parse_json_int_map loads padded =
    let raw = strip padded in
    if text_eq raw [] then value [] else or_no_ints (do parsed ← loads raw; int_entries parsed)

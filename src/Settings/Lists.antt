-- ===== src/Settings/Lists.antt =====
-- The list variables of src/config/settings.py.
use ai_storybook_storage_ser.Base.{
  Text, codes, false, ◌≡◌, ◌≢◌, refl, inl, inr, List, [], ◌∷◌, All, Lacks, text_eq, text_eq_iff,
  starts_with, strip, drop_while, split, split-join, join, arith, Bool-cases, IsTrimmed,
  strip-IsFlush, strip_of_IsFlush, join-IsTrimmed,
}
use ai_storybook_storage_ser.Settings.Parsers.{
  Fault, json_decode_error, type_error, Outcome, value, raised, ◌>>=◌, Json, Loads, iterated,
  stripped, parse_csv, or_csv, parse_json_or_csv_list,
}

not_empty : (s : Text) → text_eq s [] ≡ false → s ≢ []
not_empty s full e = let yes = (text_eq_iff s []).1 e in ground arith

full_of : (s : Text) → s ≢ [] → text_eq s [] ≡ false
full_of s ne = elim (Bool-cases (text_eq s [])) [
  | inl empty ↦ absurd (ne ((text_eq_iff s []).0 empty))
  | inr full ↦ full
]

stripped-All : (xs : List Text) → All IsTrimmed (stripped xs)
unfolding stripped
stripped-All [] = tt
stripped-All (x ∷ xs) = elim (Bool-cases (text_eq (strip x) [])) [
  | inl empty ↦ rw empty (stripped-All xs)
  | inr full ↦
      let (first, last) = strip-IsFlush x in
      rw full ((not_empty (strip x) full, first, last), stripped-All xs)
]

stripped_of_All : (xs : List Text) → All IsTrimmed xs → stripped xs ≡ xs
unfolding stripped
stripped_of_All [] _ = refl
stripped_of_All (x ∷ xs) ((ne, first, last), hs) =
    rw (strip_of_IsFlush x first last, stripped_of_All xs hs) (rw (full_of x ne) refl)

abbrev AllTrimmed : Outcome (List Text) → Type 0
AllTrimmed (value xs) = All IsTrimmed xs
AllTrimmed (raised e) = Unit

or_csv-AllTrimmed :
    (raw : Text) (r : Outcome (List Text)) → AllTrimmed r → AllTrimmed (or_csv raw r)
unfolding parse_csv
or_csv-AllTrimmed raw (value xs) h = h
or_csv-AllTrimmed raw (raised json_decode_error) h = stripped-All (split 44 raw)
or_csv-AllTrimmed raw (raised type_error) h = stripped-All (split 44 raw)
or_csv-AllTrimmed raw (raised Fault.value_error) h = tt
or_csv-AllTrimmed raw (raised Fault.overflow_error) h = tt
or_csv-AllTrimmed raw (raised Fault.recursion_error) h = tt

from_json-AllTrimmed :
    (r : Outcome Json) → AllTrimmed (do parsed ← r; xs ← iterated parsed; value (stripped xs))
from_json-AllTrimmed (raised e) = tt
from_json-AllTrimmed (value parsed) = by (iterated parsed)
  where
    by : (r : Outcome (List Text)) → AllTrimmed (do xs ← r; value (stripped xs))
    by (value xs) = stripped-All xs
    by (raised e) = tt

parse_json_or_csv_list-AllTrimmed :
    (loads : Loads) (raw : Text) → AllTrimmed (parse_json_or_csv_list loads raw)
unfolding parse_json_or_csv_list parse_csv
parse_json_or_csv_list-AllTrimmed loads raw = elim (Bool-cases (text_eq (strip raw) [])) [
  | inl empty ↦ rw empty tt
  | inr full ↦ elim (Bool-cases (starts_with (strip raw) (codes "["))) [
    | inl json ↦
        rw (full, json) (or_csv-AllTrimmed (strip raw) _ (from_json-AllTrimmed (loads (strip raw))))
    | inr csv ↦ rw (full, csv) (stripped-All (split 44 (strip raw)))
  ]
]

-- Whatever the text is and whatever the JSON parser makes of it, no entry of a parsed list is empty or
-- has white space at an end.
pub parse_json_or_csv_list-All :
    (loads : Loads) (raw : Text) (xs : List Text)
    → parse_json_or_csv_list loads raw ≡ value xs
    → All IsTrimmed xs
parse_json_or_csv_list-All loads raw xs h =
    let all = parse_json_or_csv_list-AllTrimmed loads raw in rw h at all

-- Entries that are not empty, have no white space at either end and hold no comma, written with commas
-- between them, are read back as they are, unless the text begins with `[`.
pub parse_json_or_csv_list-join :
    (loads : Loads) (xs : List Text)
    → All IsTrimmed xs
    → All (Lacks b',') xs
    → starts_with (join b',' xs) (codes "[") ≡ false
    → parse_json_or_csv_list loads (join b',' xs) ≡ value xs
unfolding parse_json_or_csv_list parse_csv text_eq
parse_json_or_csv_list-join loads [] trimmed lacks plain = unfold join strip drop_while in refl
parse_json_or_csv_list-join loads (x ∷ xs) trimmed lacks plain =
    let (ne, first, last) = join-IsTrimmed x xs trimmed in
    rw
      (
        strip_of_IsFlush (join 44 (x ∷ xs)) first last,
        full_of (join 44 (x ∷ xs)) ne,
        plain,
        split-join 44 x xs lacks,
        stripped_of_All (x ∷ xs) trimmed,
      )
      refl

-- ===== src/RawPipe/Preface.antt =====
-- connector-lib/rawpipe/rawpipe.go: the line with which a connector opens a tunnel.
pub mod RoundTrip
use traversal_connector.Common.{
  ℕ, zero, suc, Bool, true, false, not, ◌&&◌, ◌||◌, Option, none, some, List, [], ◌∷◌, ◌++◌, ltb,
  leb, ◌==◌, if◌then◌else◌, Text, codes, text_eq, is_empty, split, join, all, any, length,
}

pub record Hello : Type 0 where
  pub connector_id : Text
  pub roots : List Text
  pub kids : List Text

abbrev pub preface : Text
preface = codes "TRAVERSAL-TUNNEL/1"

abbrev pub max_preface_len : ℕ
max_preface_len = 512

abbrev pub preface_roots : Text
preface_roots = codes "roots"

abbrev pub preface_kids : Text
preface_kids = codes "kids"

abbrev pub value_byte : ℕ → Bool
value_byte c = not (leb c b' ' || ltb b'~' c || c == b',')

-- prefaceValue.
unfoldable pub preface_value : Text → Bool
preface_value v = all value_byte v && not (is_empty v)

-- strings.Join with commas, of a list that is not empty.
unfoldable pub join_values : List Text → Text
join_values [] = []
join_values (v ∷ vs) = join b',' v vs

-- strings.Split at commas of a value that is not empty, and nil for an empty one.
unfoldable pub list_of : Text → List Text
list_of [] = []
list_of (c ∷ s) = let (h, t) = split b',' (c ∷ s) in h ∷ t

-- One round of the loop of WritePreface.
unfoldable pub add_field : Text → Text → List Text → Option Text
unfolding join_values preface_value
add_field line key [] = some line
add_field line key (v ∷ vs) =
    if all preface_value (v ∷ vs)
    then some (line ++ b' ' ∷ (key ++ b'=' ∷ join_values (v ∷ vs)))
    else none

unfoldable pub bounded_line : Option Text → Option Text
bounded_line none = none
bounded_line (some line) =
    if ltb max_preface_len (length (line ++ 10 ∷ [])) then none else some (line ++ 10 ∷ [])

-- strings.TrimSuffix of one newline.
unfoldable pub trim_newline : Text → Text
trim_newline [] = []
trim_newline (c ∷ []) = if c == 10 then [] else c ∷ []
trim_newline (c ∷ d ∷ s) = c ∷ trim_newline (d ∷ s)

-- strings.Cut at the first equals sign; none if there is none.
unfoldable pub cut_field : Text → Option (Text × Text)
cut_field [] = none
cut_field (c ∷ s) =
    if c == b'='
    then some ([], s)
    else elim (cut_field s) [ none ↦ none | some (k, v) ↦ some (c ∷ k, v) ]

-- The switch on the key of a field.
unfoldable pub set_field : Hello → Text → List Text → Hello
set_field h key list =
    if text_eq key preface_roots
    then record h { roots = list }
    else if text_eq key preface_kids
    then record h { kids = list }
    else h

-- The loop of ParsePreface over the fields, with the keys seen.
unfoldable pub parse_fields : List Text → Hello → List Text → Option Hello
unfolding cut_field set_field list_of
parse_fields seen h [] = some h
parse_fields seen h (f ∷ fs) = elim (cut_field f) [
  | none ↦ none
  | some (key, value) ↦
      let rest = parse_fields (key ∷ seen) (set_field h key (list_of value)) fs in
      if is_empty key || any (text_eq key) seen then none else rest
]

-- How the reading of a preface ends: with the hello and what follows it in the reader, with
-- ErrPreface, or with the reader's own error.
pub data Reading : Type 0 where
  hello : Hello → Text → Reading
  bad_preface too_long reader_failed : Reading

-- uuid.Parse and String: the canonical form of what parses.
module _ (uuid : Text → Option Text) where
  unfoldable pub is_connector_id : Text → Bool
  is_connector_id id = elim (uuid id) [ none ↦ false | some u ↦ text_eq u id ]

  -- The line of WritePreface; none is its error.
  unfoldable pub write_preface : Hello → Option Text
  unfolding add_field
  write_preface h =
      if is_connector_id h.connector_id
      then bounded_line (elim (add_field (preface ++ b' ' ∷ h.connector_id) preface_roots h.roots) [
        | none ↦ none
        | some line ↦ add_field line preface_kids h.kids
      ])
      else none

  unfoldable pub parse_tagged : Text → List Text → Option Hello
  unfolding parse_fields
  parse_tagged tag [] = none
  parse_tagged tag (id ∷ fields) =
      if text_eq tag preface && is_connector_id id
      then parse_fields [] (record { connector_id = id; roots = []; kids = [] }) fields
      else none

  unfoldable pub parse_preface : Text → Option Hello
  unfolding parse_tagged trim_newline
  parse_preface line = let (tag, fields) = split b' ' (trim_newline line) in parse_tagged tag fields

  unfoldable pub read_line : Text → Option Hello → Reading
  read_line rest none = bad_preface
  read_line rest (some h) = hello h rest

  -- The loop of ReadPreface, with the number of bytes that it may still take, the bytes that it
  -- took, and those that the reader gives before it fails.
  unfoldable pub read_from : ℕ → Text → Text → Reading
  unfolding parse_preface read_line
  read_from zero line input = too_long
  read_from (suc left) line [] = reader_failed
  read_from (suc left) line (c ∷ input) =
      let rest = read_from left (line ++ c ∷ []) input in
      if c == 10 then read_line input (parse_preface (line ++ c ∷ [])) else rest

  unfoldable pub read_preface : Text → Reading
  unfolding read_from
  read_preface input = read_from max_preface_len [] input

-- ===== src/Jws.antt =====
-- connector-lib/jws/jws.go: a compact JWS, parsed strictly.
pub mod Strict
use traversal_connector.Common.{
  ℕ, ◌+◌, ◌%◌, Bool, true, false, not, ◌&&◌, ◌||◌, Option, none, some, List, [], ◌∷◌, ◌++◌, map,
  ltb, ◌==◌, if◌then◌else◌, length, any, all, Text, codes, text_eq,
}

pub data Error : Type 0 where
  malformed bad_header bad_signature bad_claims : Error

-- `x5c` is none where the header names no chain.
pub record Header : Type 0 where
  pub alg : Text
  pub typ : Text
  pub kid : Text
  pub x5c : Option (List Text)

-- A token of jsontext's decoder: names and strings are both `str`.
pub data JsonToken : Type 0 where
  open_object close_object open_array close_array literal : JsonToken
  str : Text → JsonToken

-- What the code takes of base64, encoding/json/v2, jsontext and golang-jwt. `object` is a segment
-- read as map[string]jsontext.Value: each key, and whether its value is null.
pub record Codec : Type 1 where
  pub Key : Type 0
  pub base64_raw_url : Text → Option Text
  pub object : Text → Option (List (Text × Bool))
  pub tokens : Text → Option (List JsonToken)
  pub header : Text → Option Header
  pub to_lower : Text → Text
  pub es256 : Text → Text → Key → Bool

-- A container that is open: the decoder's count of what it has read in it, and for an object the
-- keys that foldedUnique has seen.
pub data Frame : Type 0 where
  in_object : ℕ → List Text → Frame
  in_array : ℕ → Frame

abbrev pub counted : List Frame → List Frame
counted [] = []
counted (in_object n seen ∷ fs) = in_object (n + 1) seen ∷ fs
counted (in_array n ∷ fs) = in_array (n + 1) ∷ fs

abbrev pub opened : List Frame → List Frame
opened [] = []
opened (f ∷ fs) = fs

abbrev pub seen_in : List Text → Text → Bool
seen_in keys k = any (text_eq k) keys

-- known : each JSON key of a struct type, and whether it is required.
abbrev pub plain_header_keys : List (Text × Bool)
plain_header_keys = (codes "alg", true) ∷ (codes "typ", true) ∷ (codes "kid", true) ∷ []

abbrev pub chained_header_keys : List (Text × Bool)
chained_header_keys =
    (codes "alg", true) ∷ (codes "typ", true) ∷ (codes "kid", true) ∷ (codes "x5c", false) ∷ []

-- A key of `known` that is required is there, with a value that is not null.
unfoldable pub is_present : List (Text × Bool) → Text → Bool
is_present obj k = any (λ e. text_eq e.0 k && not e.1) obj

unfoldable pub is_named : List (Text × Bool) → Text → Bool
is_named known k = any (λ e. text_eq e.0 k) known

-- strings.Split(token, ".").
abbrev extend : ℕ → Text × List Text → Text × List Text
extend c (l, ls) = if c == b'.' then ([], l ∷ ls) else (c ∷ l, ls)

split_dots : Text → Text × List Text
split_dots [] = ([], [])
split_dots (c ∷ s) = extend c (split_dots s)

pub data Parts : Type 0 where
  three : Text → Text → Text → Parts
  not_three : Parts

parts_of : Text → List Text → Parts
parts_of a (b ∷ c ∷ []) = three a b c
parts_of _ _ = not_three

unfoldable pub parts : Text → Parts
unfolding split_dots parts_of
parts s = parts_of (split_dots s).0 (split_dots s).1

-- What follows the first dot.
unfoldable pub after_dot : Text → Text
after_dot [] = []
after_dot (c ∷ s) = if c == b'.' then s else after_dot s

pub record Token : Type 0 where
  pub head : Header
  -- header.payload, what the signature covers
  pub input : Text
  pub sig : Text

pub data Result {ℓ} (A : Type ℓ) : Type ℓ where
  ok : A → Result A
  err : Error → Result A

module _ (codec : Codec) where
  open codec use {Key, base64_raw_url, object, tokens, header, to_lower, es256}

  -- foldedUnique over the decoder's tokens: false for a key repeated by case.
  add_key : Text → List Frame → Option (List Frame)
  add_key k (in_object n seen ∷ fs) =
      if n % 2 == 1
      then if seen_in seen (to_lower k) then none else some (in_object n (to_lower k ∷ seen) ∷ fs)
      else some (in_object n seen ∷ fs)
  add_key k fs = some fs

  token_step : JsonToken → List Frame → Option (List Frame)
  token_step open_object fs = some (in_object 0 [] ∷ counted fs)
  token_step close_object fs = some (opened fs)
  token_step open_array fs = some (in_array 0 ∷ counted fs)
  token_step close_array fs = some (opened fs)
  token_step literal fs = some (counted fs)
  token_step (str k) fs = add_key k (counted fs)

  unfoldable pub folded_from : List JsonToken → List Frame → Bool
  unfolding add_key token_step
  folded_from [] fs = true
  folded_from (t ∷ ts) fs = elim (token_step t fs) [ none ↦ false | some gs ↦ folded_from ts gs ]

  unfoldable pub folded_unique : Text → Bool
  folded_unique raw = elim (tokens raw) [ none ↦ false | some ts ↦ folded_from ts [] ]

  module _ {A : Type 0} (known : List (Text × Bool)) (ignore_unknown : Bool)
      (unmarshal : Text → Option A) where
    -- decodeSegment on the decoded bytes and the object that they are.
    unfoldable pub decode_object : Text → List (Text × Bool) → Option A
    decode_object raw obj =
        if folded_unique raw
          && all (λ k. not k.1 || is_present obj k.0) known
          && (ignore_unknown || all (λ e. is_named known e.0) obj)
        then unmarshal raw
        else none

    unfoldable pub decode_raw : Text → Option A
    decode_raw raw = elim (object raw) [ none ↦ none | some obj ↦ decode_object raw obj ]

    unfoldable pub decode_segment : Text → Option A
    decode_segment segment = elim (base64_raw_url segment) [
      | none ↦ none
      | some raw ↦ decode_raw raw
    ]

  known_header : Bool → List (Text × Bool)
  known_header chained = if chained then chained_header_keys else plain_header_keys

  check_header : Text → Text → Text → Option Header → Result Token
  check_header typ input sig none = err bad_header
  check_header typ input sig (some h) =
      if text_eq h.alg (codes "ES256") && text_eq h.typ typ
      then ok (record { head = h; input = input; sig = sig })
      else err bad_header

  parse_parts : ℕ → Text → Bool → ℕ → Parts → Result Token
  unfolding check_header known_header
  parse_parts max_len typ chained len not_three = err malformed
  parse_parts max_len typ chained len (three a b c) =
      if ltb max_len len
      then err malformed
      else check_header typ (a ++ b'.' ∷ b) c (decode_segment (known_header chained) false header a)

  unfoldable pub parse : Text → ℕ → Text → Bool → Result Token
  unfolding parse_parts
  parse token max_len typ chained = parse_parts max_len typ chained (length token) (parts token)

  -- The signature is checked first, and only then are the claims decoded.
  verify_signed :
      {A : Type 0} → List (Text × Bool) → Bool → (Text → Option A) → Token → Bool → Result A
  verify_signed known ignore_unknown unmarshal t false = err bad_signature
  verify_signed known ignore_unknown unmarshal t true =
      elim (decode_segment known ignore_unknown unmarshal (after_dot t.input)) [
        | none ↦ err bad_claims
        | some a ↦ ok a
      ]

  unfoldable pub signed : Token → Key → Bool
  signed t key = elim (base64_raw_url t.sig) [ none ↦ false | some sig ↦ es256 t.input sig key ]

  unfoldable pub verify :
      {A : Type 0} → List (Text × Bool) → Bool → (Text → Option A) → Token → Key → Result A
  unfolding verify_signed
  verify known ignore_unknown unmarshal t key =
      verify_signed known ignore_unknown unmarshal t (signed t key)

-- ===== src/Env.antt =====
-- connector-lib/env/env.go and connector-lib/env/reader.go: settings from the environment.
use traversal_connector.Common.{
  Bool, true, false, not, ◌||◌, Option, none, some, List, [], ◌∷◌, ◌++◌, if◌then◌else◌, Text, codes,
  text_eq, is_empty,
}
use traversal_connector.Common.Int.{ℤ, pos, ltb_ℤ}

-- os.Getenv, empty for a variable that is not set.
abbrev pub Environment : Type 0
Environment = Text → Text

-- strconv and time. Atoi and ParseDuration give a value and whether the error is nil.
pub record Parsers : Type 0 where
  pub parse_int64 : Text → Option ℤ
  pub parse_bool : Text → Option Bool
  pub atoi : Text → ℤ × Bool
  pub parse_duration : Text → ℤ × Bool

abbrev pub production : Text
production = codes "production"

abbrev pub development : Text
development = codes "development"

abbrev pub is_dev : Text → Bool
is_dev level = text_eq level development

abbrev pub get_env_string : Environment → Text → Text → Text
get_env_string env key default_val = if is_empty (env key) then default_val else env key

abbrev pub get_env_optional_string : Environment → Text → Option Text
get_env_optional_string env key = if is_empty (env key) then none else some (env key)

-- The errors of a Reader, as the settings that they name.
abbrev pub Reader : Type 0
Reader = List Text

-- Whether Err is not nil.
abbrev pub has_errors : Reader → Bool
has_errors [] = false
has_errors (key ∷ keys) = true

module _ (parsers : Parsers) where
  open parsers use {parse_int64, parse_bool, atoi, parse_duration}

  unfoldable pub get_env_int64 : Environment → Text → ℤ → ℤ
  get_env_int64 env key default_val =
      if is_empty (env key)
      then default_val
      else elim (parse_int64 (env key)) [ none ↦ default_val | some parsed ↦ parsed ]

  unfoldable pub get_env_duration : Environment → Text → ℤ → ℤ
  get_env_duration env key default_val =
      if is_empty (env key)
      then default_val
      else let (duration, fine) = parse_duration (env key) in if fine then duration else default_val

  unfoldable pub get_env_bool : Environment → Text → Bool → Bool
  get_env_bool env key default_val =
      if is_empty (env key)
      then default_val
      else elim (parse_bool (env key)) [ none ↦ default_val | some parsed ↦ parsed ]

  unfoldable pub strict_int : Environment → Reader → Text → ℤ → ℤ → Reader × ℤ
  strict_int env errs key def max_val =
      if is_empty (env key)
      then (errs, def)
      else let (n, fine) = atoi (env key) in
        (if not fine || ltb_ℤ n (pos 1) || ltb_ℤ max_val n then errs ++ key ∷ [] else errs, n)

  unfoldable pub strict_duration : Environment → Reader → Text → ℤ → Reader × ℤ
  strict_duration env errs key def =
      if is_empty (env key)
      then (errs, def)
      else let (d, fine) = parse_duration (env key) in
        (if not fine || ltb_ℤ d (pos 0) then errs ++ key ∷ [] else errs, d)

unfoldable pub strict_bool : Environment → Reader → Text → Bool → Reader × Bool
strict_bool env errs key def =
    if is_empty (env key)
    then (errs, def)
    else if text_eq (env key) (codes "false")
    then (errs, false)
    else if text_eq (env key) (codes "true")
    then (errs, true)
    else (errs ++ key ∷ [], def)

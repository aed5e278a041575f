-- ===== src/Redact/File.antt =====
-- internal/redact/file.go: the polling of a local file of rules.
pub mod Polls
mod Tests
use traversal_connector.Common.{
  ℕ, ◌+◌, Bool, true, false, not, ◌&&◌, ◌||◌, Option, none, some, List, [], ◌∷◌, leb, if◌then◌else◌,
  Text, text_eq,
}
use traversal_connector.Redact
use traversal_connector.Redact.{Rule, RulesFile, CompiledRule}
use traversal_connector.Redact.Compile.{update}

-- What a TOML document holds: the top-level rules, none if there are none, and whether it has a
-- schema version and rules in its redaction table, as a remote configuration does.
pub record Parsed : Type 0 where
  pub default_replacement : Text
  pub rules : Option (List Rule)
  pub is_remote : Bool

pub record Library : Type 1 where
  pub redact : Redact.Library
  pub toml : Text → Option Parsed
  pub sha256 : Text → Text

abbrev pub max_consecutive_file_failures : ℕ
max_consecutive_file_failures = 3

abbrev pub listed : Option (List Rule) → List Rule
listed none = []
listed (some rs) = rs

abbrev pub is_nil : Option (List Rule) → Bool
is_nil none = true
is_nil (some rs) = false

module _ (lib : Library) where
  open lib use {redact, toml, sha256}

  -- The loader, with the rules in force of its redactor.
  pub record FileLoader : Type 0 where
    pub last_hash : Text
    pub loaded : Bool
    pub consecutive_failures : ℕ
    pub rules : List (CompiledRule redact.Regex)

  -- The new loader, and whether there was no error.
  refresh_parsed : FileLoader → Text → Option Parsed → FileLoader × Bool
  refresh_parsed l hash none = (l, false)
  refresh_parsed l hash (some p) =
      if is_nil p.rules && p.is_remote
      then (l, false)
      else (let (rules, fine) =
            update redact
              (record { default_replacement = p.default_replacement; rules = listed p.rules })
              l.rules in
          if fine
          then (record l { rules = rules; last_hash = hash; loaded = true }, true)
          else (l, false))

  -- FileLoader.refresh on what was read of the file, if it could be.
  unfoldable pub file_refresh : FileLoader → Option Text → FileLoader × Bool
  unfolding refresh_parsed
  file_refresh l none = (l, false)
  file_refresh l (some body) =
      if l.loaded && text_eq (sha256 body) l.last_hash
      then (l, true)
      else refresh_parsed l (sha256 body) (toml body)

  pub data Status : Type 0 where
    running stopped : FileLoader → Status

  -- The end of poll, behind its refresh.
  unfoldable pub counted : FileLoader × Bool → Status
  counted (l, true) = running (record l { consecutive_failures = 0 })
  counted (l, false) =
      let failing = record l { consecutive_failures = l.consecutive_failures + 1 } in
      if leb max_consecutive_file_failures (l.consecutive_failures + 1)
      then stopped failing
      else running failing

  unfoldable pub poll : FileLoader → Option Text → Status
  unfolding file_refresh counted
  poll l read = counted (file_refresh l read)

  -- The loop of Run, over what its ticks read.
  unfoldable pub polls : FileLoader → List (Option Text) → Status
  unfolding poll
  polls l [] = running l
  polls l (read ∷ reads) = elim (poll l read) [ stopped m ↦ stopped m | running m ↦ polls m reads ]

  -- Run, which stops with an error at once if nothing was loaded before.
  unfoldable pub run : FileLoader → List (Option Text) → Status
  unfolding polls
  run l reads = if not l.loaded then stopped l else polls l reads

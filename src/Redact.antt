-- ===== src/Redact.antt =====
-- internal/redact/redact.go: the redaction rules and where they fire.
pub mod Compile
pub mod Walk
pub mod Gate
pub mod File
mod Tests
use traversal_connector.Common.{
  ℕ, Bool, true, false, not, ◌&&◌, ◌||◌, Option, none, some, List, [], ◌∷◌, ◌++◌, map, leb, ◌==◌,
  if◌then◌else◌, is_empty, any, all, Text, codes, text_eq, is_some,
}
use traversal_connector.Hostname.{trim_dot}

-- What the redactor takes of regexp, idna and strings: `compile` is none for a pattern that does
-- not compile, and `idna` for a host that has no ASCII form.
pub record Library : Type 1 where
  pub Regex : Type 0
  pub compile : Text → Option Regex
  pub matches : Regex → Text → Bool
  pub replace_all : Regex → Text → Text → Text
  pub idna : Text → Option Text
  pub to_lower : Text → Text

abbrev pub type_regex : Text
type_regex = codes "regex"

abbrev pub type_structured : Text
type_structured = codes "regex-structured-data"

abbrev pub default_default_replacement : Text
default_default_replacement = codes "[REDACTED]"

-- A nil slice of fields is none.
pub record Rule : Type 0 where
  pub name : Text
  pub type : Text
  pub pattern : Text
  pub replacement : Text
  pub redact_fields : Option (List Text)
  pub skip_fields : Option (List Text)
  pub hosts : List Text

pub record RulesFile : Type 0 where
  pub default_replacement : Text
  pub rules : List Rule

-- A set of fields is the list of its members, and a nil map is none.
pub record CompiledRule (Regex : Type 0) : Type 0 where
  pub name : Text
  pub re : Regex
  pub replacement : Text
  pub structured : Bool
  pub redact_fields : Option (List Text)
  pub skip_fields : Option (List Text)
  pub host_matchers : Option (List Regex)

unfoldable pub is_ascii : Text → Bool
is_ascii s = all (λ c. leb c 127) s

unfoldable pub in_set : Text → List Text → Bool
in_set field set = any (text_eq field) set

-- field[:i] for each i at which a separator stands.
unfoldable pub ancestors : Text → List Text
ancestors [] = []
ancestors (c ∷ s) =
    let rest = map (λ p. c ∷ p) (ancestors s) in if c == b'|' then [] ∷ rest else rest

unfoldable pub has_path_prefix_in_set : Text → List Text → Bool
unfolding in_set ancestors
has_path_prefix_in_set field set = in_set field set || any (λ p. in_set p set) (ancestors field)

module _ (lib : Library) where
  open lib use {Regex, compile, matches, replace_all, idna, to_lower}

  unfoldable pub idna_ascii_host : Text → Text
  unfolding is_ascii
  idna_ascii_host host =
      if is_ascii host then host else elim (idna host) [ none ↦ host | some a ↦ a ]

  unfoldable pub canonical_host : Text → Text
  unfolding idna_ascii_host
  canonical_host host = trim_dot (to_lower (idna_ascii_host host))

  unfoldable pub any_matches : List Regex → Text → Bool
  any_matches ms host = any (λ m. matches m host) ms

  unfoldable pub applies_to_host : CompiledRule Regex → Text → Bool
  unfolding any_matches
  applies_to_host cr host = elim cr.host_matchers [ none ↦ true | some ms ↦ any_matches ms host ]

  unfoldable pub has_rules_for_host : List (CompiledRule Regex) → Text → Bool
  unfolding applies_to_host
  has_rules_for_host rules host = any (λ r. applies_to_host r (canonical_host host)) rules

  -- The result, and whether it differs from the source.
  unfoldable pub apply_one_rule : CompiledRule Regex → Text → Text × Bool
  apply_one_rule rule src =
      let out = replace_all rule.re src rule.replacement in (out, not (text_eq out src))

  -- The loop of Apply.
  unfoldable pub apply_from : List (CompiledRule Regex) → Text → Text → Bool → Text × Bool
  unfolding apply_one_rule applies_to_host
  apply_from [] host result changed = (result, changed)
  apply_from (r ∷ rs) host result changed =
      let skipped = r.structured || not (applies_to_host r host) in
      let (out, hit) = apply_one_rule r result in
      apply_from rs host (if skipped then result else out)
        (if skipped then changed else changed || hit)

  unfoldable pub apply : List (CompiledRule Regex) → Text → Text → Text × Bool
  unfolding apply_from
  apply rules host src = apply_from rules (canonical_host host) src false

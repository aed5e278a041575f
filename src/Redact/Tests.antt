-- ===== src/Redact/Tests.antt =====
-- Witnesses of the theorems on redaction, with an expression that is a text and matches itself.
use traversal_connector.Common.{
  ◌≡◌, refl, [], ◌∷◌, none, some, true, false, Text, codes, text_eq, if◌then◌else◌, ◌↔◌, inr,
}
use mathlib.Core.List.{Memᴰ}
use traversal_connector.Redact.{
  Library, CompiledRule, in_set, ancestors, has_path_prefix_in_set, apply_one_rule, applies_to_host,
  any_matches, canonical_host, idna_ascii_host, is_ascii, has_rules_for_host, apply,
}
use traversal_connector.Hostname.{trim_dot}
use traversal_connector.Redact.Walk.{
  Json, number, string, array, object, no_items, item, no_members, member, put, redact,
  redact_items, redact_members, apply_json,
}
use traversal_connector.Redact.Walk.Scope.{
  Above, has_path_prefix_in_set_iff, redact_all, redact-redact_all,
}
use traversal_connector.Redact.Gate.{has_rules_for_host_sound}

abbrev library : Library
library = record {
  Regex = Text;
  compile = some;
  matches = text_eq;
  replace_all = λ re s r. if text_eq re s then r else s;
  idna = some;
  to_lower = λ s. s;
}

abbrev secret : CompiledRule Text
secret = record {
  name = codes "secret";
  re = codes "key";
  replacement = codes "[REDACTED]";
  structured = true;
  redact_fields = some (codes "body" ∷ []);
  skip_fields = none;
  host_matchers = some (codes "db" ∷ []);
}

has_path_prefix_in_set_iff_example :
    (has_path_prefix_in_set (codes "body|message") (codes "body" ∷ []) ≡ true)
    ↔ ((p : Text) × Memᴰ p (codes "body" ∷ []) × Above (codes "body|message") p)
has_path_prefix_in_set_iff_example =
    has_path_prefix_in_set_iff (codes "body|message") (codes "body" ∷ [])

abbrev message : Json
message = object (
    member (codes "id") (number (codes "7"))
      (member (codes "key") (array (item (string (codes "key")) no_items)) no_members))

-- A key that is redacted, and an item of a list; the rule does not cover what is not in the body.
redact_test :
    redact library secret []
      (object (member (codes "body") message (member (codes "key") message no_members)))
      false
    ≡ (
      object (
          member
            (codes "body")
            (object (
              member (codes "id") (number (codes "7")) (
                member
                  (codes "[REDACTED]")
                  (array (item (string (codes "[REDACTED]")) no_items))
                  no_members)))
            (member (codes "key") message no_members)),
      true,
    )
unfolding redact redact_items redact_members put apply_one_rule has_path_prefix_in_set in_set
    ancestors text_eq
redact_test = refl

redact-redact_all_example :
    redact library secret (codes "body") message false ≡ redact_all library secret message false
unfolding has_path_prefix_in_set in_set ancestors text_eq
redact-redact_all_example =
    redact-redact_all library secret (codes "body") message false refl (inr ((λ e. cc), refl))

no_rules : has_rules_for_host library (secret ∷ []) (codes "web") ≡ false
unfolding has_rules_for_host applies_to_host any_matches canonical_host idna_ascii_host is_ascii
    trim_dot text_eq
no_rules = refl

has_rules_for_host_sound_example :
    (apply library (secret ∷ []) (codes "web") (codes "key") ≡ (codes "key", false))
    × (apply_json library (λ s. none) (λ v. []) (secret ∷ []) (codes "web") (codes "key")
        ≡ some (codes "key", false))
has_rules_for_host_sound_example =
    has_rules_for_host_sound library (λ s. none) (λ v. []) (secret ∷ []) (codes "web") (codes "key")
      no_rules

-- ===== src/Redact/Walk.antt =====
-- ApplyJSON and the walk of a structured rule over a JSON document.
pub mod Scope
use traversal_connector.Common.{
  ℕ, Bool, true, false, not, ◌&&◌, ◌||◌, Option, none, some, List, [], ◌∷◌, ◌++◌, if◌then◌else◌,
  is_empty, keep, Text, codes, text_eq,
}
use traversal_connector.Redact.{
  Library, CompiledRule, has_path_prefix_in_set, applies_to_host, canonical_host, apply_one_rule,
}

-- A decoded document. The members of an object are in the order in which Go iterates over its map.
mutual
  pub data Json : Type 0 where
    null : Json
    boolean : Bool → Json
    number : Text → Json
    string : Text → Json
    array : Items → Json
    object : Members → Json

  pub data Items : Type 0 where
    no_items : Items
    item : Json → Items → Items

  pub data Members : Type 0 where
    no_members : Members
    member : Text → Json → Members → Members

-- out[k] = v.
unfoldable pub put : Text → Json → Members → Members
put k v no_members = member k v no_members
put k v (member l w ms) = if text_eq k l then member k v ms else member l w (put k v ms)

abbrev pub child_path : Text → Text → Text
child_path [] k = k
child_path (c ∷ s) k = (c ∷ s) ++ b'|' ∷ k

-- A rule's filter holds for a path; without one, `otherwise` does.
abbrev pub filtered : Option (List Text) → Bool → Text → Bool
filtered none otherwise path = otherwise
filtered (some set) otherwise path = has_path_prefix_in_set path set

module _ (lib : Library) where
  open lib use {Regex}

  module _ (rule : CompiledRule Regex) where
    abbrev pub skips : Text → Bool
    skips path = filtered rule.skip_fields false path

    abbrev pub in_scope : Text → Bool
    in_scope path = filtered rule.redact_fields true path

    -- The text, or its redaction, and the flag `matched`.
    abbrev pub redact_text : Bool → Text → Bool → Text × Bool
    redact_text false s matched = (s, matched)
    redact_text true s matched = let (out, hit) = apply_one_rule lib rule s in (out, matched || hit)

    abbrev pub redact_number : Bool → Text → Bool → Json × Bool
    redact_number false s matched = (number s, matched)
    redact_number true s matched =
        let (out, hit) = apply_one_rule lib rule s in
        if hit then (string out, true) else (number s, matched)

    -- The first test of redactValueForRule.
    abbrev pub unless : Bool → Json × Bool → Json × Bool → Json × Bool
    unless skipped kept redacted = if skipped then kept else redacted

    unfoldable mutual
      -- redactValueForRule.
      pub redact : Text → Json → Bool → Json × Bool
      redact path null matched = (null, matched)
      redact path (boolean b) matched = (boolean b, matched)
      redact path (number s) matched =
          unless (skips path) (number s, matched) (redact_number (in_scope path) s matched)
      redact path (string s) matched =
          let (out, m) = redact_text (in_scope path) s matched in
          unless (skips path) (string s, matched) (string out, m)
      redact path (array xs) matched =
          let (ys, m) = redact_items path xs matched in
          unless (skips path) (array xs, matched) (array ys, m)
      redact path (object ms) matched =
          let (out, m) = redact_members path ms no_members matched in
          unless (skips path) (object ms, matched) (object out, m)

      pub redact_items : Text → Items → Bool → Items × Bool
      redact_items path no_items matched = (no_items, matched)
      redact_items path (item v vs) matched =
          let (w, m) = redact path v matched in
          let (ws, n) = redact_items path vs m in (item w ws, n)

      pub redact_members : Text → Members → Members → Bool → Members × Bool
      redact_members path no_members out matched = (out, matched)
      redact_members path (member k v ms) out matched =
          let at = child_path path k in
          let (key, m) = redact_text (in_scope path) k matched in
          let (w, n) = redact at v m in
          redact_members path ms (if skips at then put k v out else put key w out)
            (if skips at then matched else n)

  -- redactValue.
  pub redact_value : List (CompiledRule Regex) → Json → Bool → Json × Bool
  unfolding redact
  redact_value [] v matched = (v, matched)
  redact_value (r ∷ rs) v matched =
      let (w, m) = redact r [] v matched in
      redact_value rs (if r.structured then w else v) (if r.structured then m else matched)

  -- The decoder gives none unless the bytes are one document, and the encoder writes one.
  module _ (decode : Text → Option Json) (encode : Json → Text) where
    redact_decoded : List (CompiledRule Regex) → Option Json → Option (Text × Bool)
    unfolding redact_value
    redact_decoded active none = none
    redact_decoded active (some v) = let (w, m) = redact_value active v false in some (encode w, m)

    unfoldable pub apply_active : List (CompiledRule Regex) → Text → Option (Text × Bool)
    unfolding redact_decoded
    apply_active [] src = some (src, false)
    apply_active (r ∷ rs) src = redact_decoded (r ∷ rs) (decode src)

    unfoldable pub apply_json : List (CompiledRule Regex) → Text → Text → Option (Text × Bool)
    unfolding apply_active
    apply_json rules host src =
        apply_active
          (keep (λ r. r.structured && applies_to_host lib r (canonical_host lib host)) rules) src

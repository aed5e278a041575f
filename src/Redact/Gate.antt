-- ===== src/Redact/Gate.antt =====
-- HasRulesForHost, by which the callers skip the redaction of a host.
use traversal_connector.Common.{
  Bool, true, false, ◌&&◌, ◌||◌, Option, some, List, [], ◌∷◌, any, arith, Text, ◌≡◌, refl, keep,
  Bool-cases, inl, inr,
}
use traversal_connector.Redact.{
  Library, CompiledRule, applies_to_host, canonical_host, has_rules_for_host, apply_from, apply,
}
use traversal_connector.Redact.Walk.{Json, apply_json, apply_active}

||-true : (b : Bool) → (b || true) ≡ true
||-true true = refl
||-true false = refl

keep-none :
    {A : Type 0} (f p : A → Bool) (xs : List A) → any p xs ≡ false → keep (λ x. f x && p x) xs ≡ []
keep-none f p [] h = refl
keep-none f p (x ∷ xs) h = ground (arith, keep-none f p xs)

module _ (lib : Library) where
  apply_from-none :
      (rules : List (CompiledRule lib.Regex)) (host src : Text) (changed : Bool)
      → any (λ r. applies_to_host lib r host) rules ≡ false
      → apply_from lib rules host src changed ≡ (src, changed)
  unfolding apply_from
  apply_from-none [] host src changed h = refl
  apply_from-none (r ∷ rs) host src changed h = elim (Bool-cases (applies_to_host lib r host)) [
    | inl fires ↦ absurd (ground arith)
    | inr silent ↦
        rw (silent, ||-true r.structured) (apply_from-none rs host src changed (ground arith))
  ]

  -- Where no rule fires for a host, both ways of redacting leave every body as it is, whether it
  -- parses or not: skipping them changes nothing.
  pub has_rules_for_host_sound :
      (decode : Text → Option Json) (encode : Json → Text) (rules : List (CompiledRule lib.Regex))
      (host src : Text)
      → has_rules_for_host lib rules host ≡ false
      → (apply lib rules host src ≡ (src, false))
        × (apply_json lib decode encode rules host src ≡ some (src, false))
  unfolding has_rules_for_host apply apply_json apply_active
  has_rules_for_host_sound decode encode rules host src h = (
    apply_from-none rules (canonical_host lib host) src false h,
    rw
        (
          apply_json,
          keep-none (λ r. r.structured) (λ r. applies_to_host lib r (canonical_host lib host)) rules
              h,
        )
        refl,
  )

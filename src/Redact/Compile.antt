-- ===== src/Redact/Compile.antt =====
-- compileRules and Update: from the rules of a file to those in force.
use traversal_connector.Common.{
  Bool, true, false, ◌||◌, Option, none, some, List, [], ◌∷◌, ◌++◌, if◌then◌else◌, is_empty, any,
  Text, codes, text_eq,
}
use traversal_connector.Redact.{
  Library, Rule, RulesFile, CompiledRule, type_regex, type_structured, default_default_replacement,
}

or_default : Text → Text → Text
or_default s d = if is_empty s then d else s

module _ (lib : Library) where
  open lib use {Regex, compile}

  -- The loop over the host patterns: every one but ".*" must compile.
  compile_hosts : List Text → Option (List Regex)
  compile_hosts [] = some []
  compile_hosts (p ∷ ps) =
      let rest = compile_hosts ps in
      if text_eq p (codes ".*") then rest else elim (compile (codes "^(?i:" ++ p ++ codes ")$")) [
        | none ↦ none
        | some m ↦ elim rest [ none ↦ none | some ms ↦ some (m ∷ ms) ]
      ]

  -- The outer option is the error, and an inner none is a nil slice, for every host.
  compile_host_matchers : List Text → Option (Option (List Regex))
  unfolding compile_hosts
  compile_host_matchers [] = some none
  compile_host_matchers (p ∷ ps) = elim (compile_hosts (p ∷ ps)) [
    | none ↦ none
    | some ms ↦ if any (λ q. text_eq q (codes ".*")) (p ∷ ps) then some none else some (some ms)
  ]

  compiled_with :
      Text → Rule → Bool → Option Regex → Option (Option (List Regex)) → Option (CompiledRule Regex)
  unfolding or_default
  compiled_with d rule structured none hosts = none
  compiled_with d rule structured (some re) none = none
  compiled_with d rule structured (some re) (some ms) = some (record {
    name = rule.name;
    re = re;
    replacement = or_default rule.replacement d;
    structured = structured;
    redact_fields = if structured then rule.redact_fields else none;
    skip_fields = if structured then rule.skip_fields else none;
    host_matchers = ms;
  })

  -- The body of the loop of compileRules.
  compile_rule : Text → Rule → Option (CompiledRule Regex)
  unfolding compiled_with compile_host_matchers
  compile_rule d rule =
      if text_eq rule.type type_regex || text_eq rule.type type_structured
      then compiled_with d rule (text_eq rule.type type_structured) (compile rule.pattern)
          (compile_host_matchers rule.hosts)
      else none

  compile_all : Text → List Rule → Option (List (CompiledRule Regex))
  unfolding compile_rule
  compile_all d [] = some []
  compile_all d (r ∷ rs) =
      let rest = compile_all d rs in
      elim (compile_rule d r) [
        | none ↦ none
        | some c ↦ elim rest [ none ↦ none | some cs ↦ some (c ∷ cs) ]
      ]

  pub compile_rules : RulesFile → Option (List (CompiledRule Regex))
  unfolding compile_all or_default
  compile_rules f =
      compile_all (or_default f.default_replacement default_default_replacement) f.rules

  -- Update: the rules in force afterwards, and whether there was no error.
  pub update : RulesFile → List (CompiledRule Regex) → List (CompiledRule Regex) × Bool
  update f rules = elim (compile_rules f) [ none ↦ (rules, false) | some cs ↦ (cs, true) ]

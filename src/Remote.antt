-- ===== src/Remote.antt =====
-- internal/redact/remote.go: the polling of the redaction rules of the controller.
pub mod Rollback
mod Tests
use traversal_connector.Common.{
  ℕ, ◌*◌, Bool, true, false, not, ◌&&◌, ◌||◌, Option, none, some, List, [], ◌∷◌, ltb, leb, ◌==◌,
  if◌then◌else◌, Text, codes, text_eq, is_empty, is_some, switch, any, length, from_option,
}
use traversal_connector.Common.Int.{ℤ, pos, ltb_ℤ}
use traversal_connector.Redact
use traversal_connector.Redact.{Rule, RulesFile, CompiledRule, type_regex, type_structured}
use traversal_connector.Redact.Compile.{compile_rules, update}
use traversal_connector.SignedConfig.{Claims, Verdict, refused, accepted}

-- A decoded document; a missing table, and a missing list of rules, are none.
pub record Section : Type 0 where
  pub default_replacement : Text
  pub rules : Option (List Rule)

pub record Document : Type 0 where
  pub schema_version : ℤ
  pub redaction : Option Section

-- `toml` decodes a document and is none for unknown fields.
pub record Library : Type 1 where
  pub redact : Redact.Library
  pub toml : Text → Option Document
  pub sha256 : Text → Text

abbrev pub max_config_bytes : ℕ
max_config_bytes = 1024 * 1024

-- The loop of ParseConfig over the rules, with the names seen: whether it returns an error.
unfoldable pub bad_rules : List Text → List Rule → Bool
bad_rules names [] = false
bad_rules names (r ∷ rs) =
    let rest = bad_rules (r.name ∷ names) rs in
    is_empty r.name
    || any (text_eq r.name) names
    || is_empty r.pattern
    || not (text_eq r.type type_regex) && not (text_eq r.type type_structured)
    || text_eq r.type type_regex && (is_some r.redact_fields || is_some r.skip_fields)
    || rest

-- The tests of ParseConfig behind its decoder.
rules_in : Text → Option (List Rule) → Option RulesFile
rules_in d none = none
rules_in d (some rs) =
    if bad_rules [] rs then none else some (record { default_replacement = d; rules = rs })

rules_of : Option Section → Option RulesFile
unfolding rules_in
rules_of none = none
rules_of (some s) = rules_in s.default_replacement s.rules

abbrev pub is_one : ℤ → Bool
is_one (pos n) = n == 1
is_one _ = false

rules_of_document : Option Document → Option RulesFile
unfolding rules_of
rules_of_document none = none
rules_of_document (some doc) = if is_one doc.schema_version then rules_of doc.redaction else none

-- What one poll got: a failure of the request, or a response by its status, with its body, unless
-- that could not be read, and its ETag.
pub data Response : Type 0 where
  failed not_found not_modified other_status : Response
  fetched : Option Text → Text → Response

-- The label of the outcome. Every one but `unchanged` and `applied` comes with an error.
pub data Outcome : Type 0 where
  error unchanged applied unsigned rolled_back : Outcome

module _ (lib : Library) where
  open lib use {redact, toml, sha256}

  pub parse_config : Text → Option RulesFile
  unfolding rules_of_document
  parse_config data_ =
      if ltb max_config_bytes (length data_) then none else rules_of_document (toml data_)

  pub validate_config : Text → Bool
  validate_config data_ = elim (parse_config data_) [
    | none ↦ false
    | some file ↦ is_some (compile_rules redact file)
  ]

  -- The loader, with the rules in force of its redactor and the status that its gauges read.
  pub record Loader : Type 0 where
    pub etag : Text
    pub hash : Text
    pub loaded : Bool
    pub version : ℕ
    pub issued : ℤ
    pub document : Text
    pub rules : List (CompiledRule redact.Regex)
    pub rule_count : ℕ
    pub last_success : Option ℤ

  pub new_loader : Loader
  new_loader = record {
    etag = [];
    hash = [];
    loaded = false;
    version = 0;
    issued = pos 0;
    document = [];
    rules = [];
    rule_count = 0;
    last_success = none;
  }

  -- What refresh makes of a body before it parses it: an error, the configuration that is in force,
  -- or a new one; the last two with the version, the time of issue and the digest to keep.
  pub data Judgment : Type 0 where
    rejected : Outcome → Judgment
    in_force : ℕ → ℤ → Text → Judgment
    replaces : Text → ℕ → ℤ → Text → Judgment

  judge_signed : Loader → Verdict → Judgment
  judge_signed l (refused r) = rejected unsigned
  judge_signed l (accepted document c) =
      from_option (replaces document c.version c.issued_at (sha256 document)) (
        switch (
          (l.loaded && ltb_ℤ c.issued_at l.issued, rejected rolled_back)
          ∷ (
            l.loaded && c.version == l.version && text_eq (sha256 document) l.document,
            in_force c.version c.issued_at (sha256 document),
          )
          ∷ (l.loaded && leb c.version l.version, rejected rolled_back)
          ∷ []))

  -- `verify` is none unless signatures are required.
  judge_new : Loader → Option (Text → Verdict) → Text → Judgment
  unfolding judge_signed
  judge_new l none body = replaces body l.version l.issued l.document
  judge_new l (some verify) body = judge_signed l (verify body)

  judge : Loader → Option (Text → Verdict) → Text → Judgment
  unfolding judge_new
  judge l verify body =
      if not l.loaded || not (text_eq (sha256 body) l.hash)
      then judge_new l verify body
      else in_force l.version l.issued l.document

  -- The rules of a new configuration, if it parses and compiles, and the number of its rules.
  apply_rules :
      Text → List (CompiledRule redact.Regex) → Option (List (CompiledRule redact.Regex) × ℕ)
  apply_rules body rules = elim (parse_config body) [
    | none ↦ none
    | some file ↦
        let (new, fine) = update redact file rules in
        if fine then some (new, length file.rules) else none
  ]

  keep_version : Loader → Text → Text → ℤ → ℕ → ℤ → Text → Loader
  keep_version l hash etag now version issued document = record l {
    hash = hash;
    etag = etag;
    loaded = true;
    version = version;
    issued = issued;
    document = document;
    last_success = some now;
  }

  settle : Loader → Text → Text → ℤ → Judgment → Loader × Outcome
  unfolding apply_rules keep_version
  settle l hash etag now (rejected o) = (l, o)
  settle l hash etag now (in_force v i d) = (keep_version l hash etag now v i d, unchanged)
  settle l hash etag now (replaces body v i d) = elim (apply_rules body l.rules) [
    | none ↦ (l, error)
    | some (rules, n) ↦
        (keep_version (record l { rules = rules; rule_count = n }) hash etag now v i d, applied)
  ]

  pub refresh : Loader → Option (Text → Verdict) → ℤ → Response → Loader × Outcome
  unfolding settle judge
  refresh l verify now failed = (l, error)
  refresh l verify now not_found = (l, error)
  refresh l verify now other_status = (l, error)
  refresh l verify now not_modified =
      if not l.loaded || is_empty l.etag
      then (l, error)
      else (record l { last_success = some now }, unchanged)
  refresh l verify now (fetched none etag) = (l, error)
  refresh l verify now (fetched (some body) etag) =
      settle l (sha256 body) etag now (judge l verify body)

-- ===== src/Remote/Tests.antt =====
-- A run of polls, and the witnesses of the theorems on them: a body is its own document, and is
-- signed with its length as its version.
use traversal_connector.Common.{◌≡◌, refl, [], ◌∷◌, some, true, Text, codes, length, text_eq}
use traversal_connector.Common.Int.{pos}
use traversal_connector.SignedConfig.{Verdict, accepted}
use traversal_connector.Remote.{
  Library, Loader, fetched, rolled_back, refresh, judge, judge_new, judge_signed, settle,
}
use traversal_connector.Remote.Rollback.{NotOlder, Poll, polled, polled-NotOlder, refresh_retains}

abbrev library : Library
library = record {
  redact = record {
    Regex = Text;
    compile = some;
    matches = text_eq;
    replace_all = λ re s r. s;
    idna = some;
    to_lower = λ s. s;
  };
  toml = λ body. some (record {
    schema_version = pos 1;
    redaction = some (record { default_replacement = []; rules = some [] });
  });
  sha256 = λ body. body;
}

abbrev signed : Text → Verdict
signed body = accepted body (record {
  audience = [];
  connector_id = [];
  version = length body;
  sha256 = body;
  issued_at = pos 100;
  expires_at = pos 400;
})

-- The loader that holds version 2.
abbrev holds_2 : Loader library
holds_2 = record {
  etag = codes "e";
  hash = codes "ab";
  loaded = true;
  version = 2;
  issued = pos 100;
  document = codes "ab";
  rules = [];
  rule_count = 0;
  last_success = some (pos 200);
}

abbrev poll : Text → Poll library
poll body = record { verify = signed; now = pos 300; response = fetched (some body) (codes "e") }

polled-NotOlder_example :
    NotOlder library holds_2 (polled library holds_2 (poll (codes "a") ∷ poll (codes "abc") ∷ []))
polled-NotOlder_example =
    polled-NotOlder library holds_2 (poll (codes "a") ∷ poll (codes "abc") ∷ []) refl

rolled_back_test :
    refresh library holds_2 (some signed) (pos 300) (fetched (some (codes "a")) (codes "f"))
    ≡ (holds_2, rolled_back)
unfolding refresh judge judge_new judge_signed settle text_eq
rolled_back_test = refl

refresh_retains_example : holds_2 ≡ holds_2
refresh_retains_example =
    refresh_retains library holds_2 holds_2 (some signed) (pos 300)
      (fetched (some (codes "a")) (codes "f")) rolled_back rolled_back_test (λ e. cc) (λ e. cc)

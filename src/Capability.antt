-- ===== src/Capability.antt =====
-- connector-lib/capability/capability.go: the claims of a capability, and who may have signed it.
pub mod Opens
pub mod JtiHeap
pub mod Chain
pub mod Verify
pub mod Sample
mod Tests
use traversal_connector.Common.{
  ℕ, ◌+◌, ◌*◌, Bool, true, false, not, ◌&&◌, ◌||◌, Option, none, some, List, [], ◌∷◌, ltb, leb,
  ◌==◌, if◌then◌else◌, length, any, Text, codes, text_eq, is_empty, has_prefix,
}
use traversal_connector.Common.Int.{ℤ, pos, negsuc, ◌-ℤ◌, ltb_ℤ, leb_ℤ}
use traversal_connector.Hostname.{Std, is_canonical}
use traversal_connector.RawPipe.{
  Reason, invalid_capability, Result, ok, err, ◌>>=◌, ◌>>◌, refuse_if,
}

-- `issued_at` and `expires_at` are int64 Unix seconds.
pub record Claims : Type 0 where
  pub issuer : Text
  pub audience : Text
  pub subject : Text
  pub organization_id : Text
  pub integration_id : Text
  pub connector_id : Text
  pub consumer_id : Text
  pub session_id : Text
  pub host : Text
  pub port : ℕ
  pub jti : Text
  pub issued_at : ℤ
  pub expires_at : ℤ

abbrev pub the_audience : Text
the_audience = codes "traversal-raw-tunnel"

abbrev pub issuer_prefix : Text
issuer_prefix = codes "traversal-raw-tunnel/"

abbrev pub max_lifetime : ℤ
max_lifetime = pos 300

abbrev pub texts : Claims → List Text
texts c =
    c.issuer ∷ c.audience ∷ c.subject ∷ c.organization_id ∷ c.integration_id ∷ c.connector_id
    ∷ c.consumer_id ∷ c.session_id ∷ c.jti ∷ []

-- The validity window. IssuedAt is positive and below ExpiresAt where they are subtracted, so the
-- int64 difference is exact.
unfoldable pub bad_window : Claims → Bool
bad_window c =
    leb_ℤ c.issued_at (pos 0)
    || leb_ℤ c.expires_at c.issued_at
    || ltb_ℤ max_lifetime (c.expires_at -ℤ c.issued_at)

unfoldable pub valid : Std → Claims → Result (Unit {0})
valid std c = do
  refuse_if (any (λ s. is_empty s || ltb 256 (length s)) (texts c)) invalid_capability
  refuse_if (not (has_prefix c.issuer issuer_prefix) || not (text_eq c.audience the_audience))
      invalid_capability
  refuse_if (not (is_canonical std c.host) || c.port == 0) invalid_capability
  refuse_if (bad_window c) invalid_capability

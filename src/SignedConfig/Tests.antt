-- ===== src/SignedConfig/Tests.antt =====
-- A signed configuration, and the witness of the theorem on what is accepted.
use traversal_connector.Common.{
  ℕ, ◌∷◌, [], ◌++◌, ◌≡◌, refl, Option, none, some, false, map, Text, codes, text_eq, cut_prefix,
  lower, ◌==◌, if◌then◌else◌,
}
use traversal_connector.Common.Int.{pos, ◌+ℤ◌, ◌-ℤ◌}
use traversal_connector.Jws
use traversal_connector.Jws.{Codec, plain_header_keys}
use traversal_connector.SignedConfig.{
  Claims, config_keys, config_audience, config_token_type, signature_prefix, Library, refused,
  accepted, expired, verify, check_lines, check_signed, check_token, check_key, check_claims,
  cut_line, trim_cr, unix_seconds,
}
use traversal_connector.SignedConfig.Sound.{IsSigned, IsFor, accepted_sound}

abbrev rules : Text
rules = codes "rules"

abbrev rules_claims : Claims
rules_claims = record {
  audience = config_audience;
  connector_id = codes "c1";
  version = 4;
  sha256 = rules;
  issued_at = pos 100;
  expires_at = pos 400;
}

-- The digest of a document is the document itself.
abbrev library : Library
library = record {
  codec = record {
    Key = ℕ;
    base64_raw_url = some;
    object = λ raw. some (
        map (λ k. (k.0, false))
          (if text_eq raw (codes "h") then plain_header_keys else config_keys));
    tokens = λ raw. some [];
    header = λ raw.
        some
          (record { alg = codes "ES256"; typ = config_token_type; kid = codes "k1"; x5c = none });
    to_lower = map lower;
    es256 = λ input sig key. key == 7;
  };
  claims = λ raw. some rules_claims;
  sha256_hex = λ document. document;
}

abbrev pinned : Text → Option ℕ
pinned kid = some 7

abbrev object : Text
object = signature_prefix ++ codes "h.p.s" ++ 13 ∷ 10 ∷ rules

accepted_test :
    verify library pinned (codes "c1") (pos 200_000_000_000) object ≡ accepted rules rules_claims
unfolding verify check_lines check_signed check_token check_key check_claims cut_line trim_cr
    cut_prefix text_eq Jws.parse Jws.parts Jws.decode_segment Jws.decode_raw Jws.decode_object
    Jws.is_present Jws.is_named Jws.folded_unique Jws.folded_from Jws.verify Jws.signed
    Jws.after_dot ◌+ℤ◌ ◌-ℤ◌ unix_seconds
accepted_test = refl

-- 300 seconds of skew behind the expiry, it is refused.
expired_test : verify library pinned (codes "c1") (pos 700_000_000_000) object ≡ refused expired
unfolding verify check_lines check_signed check_token check_key check_claims cut_line trim_cr
    cut_prefix text_eq Jws.parse Jws.parts Jws.decode_segment Jws.decode_raw Jws.decode_object
    Jws.is_present Jws.is_named Jws.folded_unique Jws.folded_from Jws.verify Jws.signed
    Jws.after_dot ◌+ℤ◌ ◌-ℤ◌ unix_seconds
expired_test = refl

accepted_sound_example :
    IsSigned library pinned (codes "c1") object rules rules_claims
    × IsFor library pinned (codes "c1") rules_claims rules (pos 200_000_000_000)
accepted_sound_example =
    accepted_sound library pinned (codes "c1") (pos 200_000_000_000) object rules rules_claims
      accepted_test

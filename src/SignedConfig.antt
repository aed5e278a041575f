-- ===== src/SignedConfig.antt =====
-- connector-lib/signedconfig/signedconfig.go: the signature on a remote configuration.
pub mod Sound
mod Tests
use traversal_connector.Common.{
  ℕ, ◌+◌, ◌*◌, ◌^◌, ◌-◌, Bool, true, false, not, ◌&&◌, ◌||◌, Option, none, some, List, [], ◌∷◌, map,
  ltb, leb, ◌==◌, if◌then◌else◌, Text, codes, text_eq, is_empty, cut_prefix, switch,
}
use traversal_connector.Common.Int.{ℤ, pos, ◌+ℤ◌, ◌-ℤ◌, ltb_ℤ, leb_ℤ, scale}
use traversal_connector.Jws
use traversal_connector.Jws.{Codec, Token}

pub record Claims : Type 0 where
  pub audience : Text
  pub connector_id : Text
  pub version : ℕ
  pub sha256 : Text
  pub issued_at : ℤ
  pub expires_at : ℤ

abbrev pub signature_prefix : Text
signature_prefix = codes "# traversal-signature: "

abbrev pub config_token_type : Text
config_token_type = codes "traversal-config+jwt"

abbrev pub config_audience : Text
config_audience = codes "traversal-connector-config"

abbrev pub max_config_token_len : ℕ
max_config_token_len = 2048

-- In nanoseconds, as times are here.
abbrev pub config_clock_skew : ℤ
config_clock_skew = pos (5 * 60 * 1_000_000_000)

-- time.Unix on 64 bits: a Time counts its seconds from the year 1, so that a count past the last
-- 62135596800 of an int64 wraps around.
unfoldable pub unix_seconds : ℤ → ℤ
unix_seconds s = if leb_ℤ (pos (2 ^ 63 - 62135596800)) s then s -ℤ pos (2 ^ 64) else s

abbrev pub unix : ℤ → ℤ
unix s = scale 1_000_000_000 (unix_seconds s)

abbrev pub config_keys : List (Text × Bool)
config_keys =
    map (λ k. (k, true))
      (codes "aud"
        ∷ codes "connector_id"
        ∷ codes "version"
        ∷ codes "sha256"
        ∷ codes "iat"
        ∷ codes "exp"
        ∷ [])

pub data Refusal : Type 0 where
  not_signed not_compact bad_header unknown_key bad_signature bad_claims other_audience : Refusal
  other_connector no_version bad_window not_yet expired mismatch : Refusal

-- A document with its claims, or an error.
pub data Verdict : Type 0 where
  refused : Refusal → Verdict
  accepted : Text → Claims → Verdict

-- bytes.Cut at the first newline.
unfoldable pub cut_line : Text → Option (Text × Text)
cut_line [] = none
cut_line (c ∷ s) =
    if c == 10
    then some ([], s)
    else elim (cut_line s) [ none ↦ none | some (line, rest) ↦ some (c ∷ line, rest) ]

-- strings.TrimSuffix of one carriage return.
unfoldable pub trim_cr : Text → Text
trim_cr [] = []
trim_cr (c ∷ []) = if c == 13 then [] else c ∷ []
trim_cr (c ∷ d ∷ s) = c ∷ trim_cr (d ∷ s)

-- What Verify takes of the libraries: the codec of package jws, the reading of the claims, and the
-- hex digest of a document.
pub record Library : Type 1 where
  pub codec : Codec
  pub claims : Text → Option Claims
  pub sha256_hex : Text → Text

module _ (lib : Library) (keys : Text → Option lib.codec.Key) (connector : Text) where
  -- The last switch of Verify.
  abbrev pub faults : Text → Claims → ℤ → List (Bool × Refusal)
  faults document c now =
      (not (text_eq c.audience config_audience), other_audience)
      ∷ (not (text_eq c.connector_id connector), other_connector)
      ∷ (c.version == 0, no_version)
      ∷ (leb_ℤ c.issued_at (pos 0) || leb_ℤ c.expires_at c.issued_at, bad_window)
      ∷ (ltb_ℤ (now +ℤ config_clock_skew) (unix c.issued_at), not_yet)
      ∷ (not (ltb_ℤ (now -ℤ config_clock_skew) (unix c.expires_at)), expired)
      ∷ (not (text_eq c.sha256 (lib.sha256_hex document)), mismatch)
      ∷ []

  check_claims : Text → ℤ → Jws.Result Claims → Verdict
  check_claims document now (Jws.err Jws.bad_signature) = refused bad_signature
  check_claims document now (Jws.err _) = refused bad_claims
  check_claims document now (Jws.ok c) = elim (switch (faults document c now)) [
    | none ↦ accepted document c
    | some r ↦ refused r
  ]

  check_key : Text → ℤ → Token → Option lib.codec.Key → Verdict
  unfolding check_claims
  check_key document now t none = refused unknown_key
  check_key document now t (some key) =
      check_claims document now (Jws.verify lib.codec config_keys false lib.claims t key)

  check_token : Text → ℤ → Jws.Result Token → Verdict
  unfolding check_key
  check_token document now (Jws.err Jws.malformed) = refused not_compact
  check_token document now (Jws.err _) = refused bad_header
  check_token document now (Jws.ok t) = check_key document now t (keys t.head.kid)

  check_signed : Text → ℤ → Option Text → Verdict
  unfolding check_token
  check_signed document now none = refused not_signed
  check_signed document now (some token) =
      check_token document now
        (Jws.parse lib.codec token max_config_token_len config_token_type false)

  check_lines : ℤ → Option (Text × Text) → Verdict
  unfolding check_signed
  check_lines now none = refused not_signed
  check_lines now (some (line, document)) =
      check_signed document now (cut_prefix (trim_cr line) signature_prefix)

  unfoldable pub verify : ℤ → Text → Verdict
  unfolding check_lines
  verify now object = check_lines now (cut_line object)

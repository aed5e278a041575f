-- ===== src/Capability/Verify.antt =====
-- Verifier.Verify of connector-lib/capability/capability.go.
pub mod Sound
pub mod Opened
use traversal_connector.Common.{
  ℕ, ◌+◌, ◌*◌, Bool, true, false, not, ◌&&◌, ◌||◌, Option, none, some, List, [], ◌∷◌, map, ltb, leb,
  ◌==◌, if◌then◌else◌, Text, codes, text_eq, is_empty,
}
use traversal_connector.Common.Int.{ℤ, pos, ◌+ℤ◌, ◌-ℤ◌, ltb_ℤ, leb_ℤ, scale}
use traversal_connector.Hostname.{Std}
use traversal_connector.Jws
use traversal_connector.Jws.{Codec, Token}
use traversal_connector.RawPipe.{
  Reason, invalid_capability, wrong_connector, wrong_destination, exhausted, Result, ok, err, ◌>>=◌,
  ◌>>◌, refuse_if,
}
use traversal_connector.Capability.{Claims, the_audience, valid}
use traversal_connector.Capability.Chain.{X509, Trust, signing_key}
use traversal_connector.Capability.JtiHeap.Heaped.{Container, jti_heap}
use traversal_connector.Capability.Opens.{Heap, Opens, take}

-- All that the verifier takes of the libraries. `claims` reads a payload into a Claims.
pub record Library : Type 1 where
  pub std : Std
  pub codec : Codec
  pub x509 : X509 codec.Key
  pub claims : Text → Option Claims
  pub container : Container

-- The heap of a verifier's jtis.
abbrev pub heap_of : Library → Heap
heap_of lib = jti_heap lib.container

abbrev pub claims_keys : List (Text × Bool)
claims_keys =
    map (λ k. (k, true))
      (codes "iss"
        ∷ codes "aud"
        ∷ codes "sub"
        ∷ codes "organization_id"
        ∷ codes "integration_id"
        ∷ codes "connector_id"
        ∷ codes "consumer_id"
        ∷ codes "session_id"
        ∷ codes "host"
        ∷ codes "port"
        ∷ codes "jti"
        ∷ codes "iat"
        ∷ codes "exp"
        ∷ [])

abbrev pub token_type : Text
token_type = codes "traversal-capability+jwt"

abbrev pub max_token_len : ℕ
max_token_len = 4096

-- Times are nanoseconds since 1970, with no bound.
abbrev pub max_clock_skew : ℤ
max_clock_skew = pos (30 * 1_000_000_000)

abbrev pub unix : ℤ → ℤ
unix s = scale 1_000_000_000 s

-- Every refusal of package jws is invalid_capability here.
abbrev pub or_reject : {A : Type 0} → Jws.Result A → Result A
or_reject (Jws.ok a) = ok a
or_reject (Jws.err e) = err invalid_capability

module _ (lib : Library) where
  open lib use {std, codec, x509, claims}

  pub record Verifier : Type 0 where
    pub trust : Trust codec.Key x509.Pool
    pub subject : Text

  unfoldable pub parse : Verifier → Text → ℤ → Result (Claims × Text)
  parse v token now = do
    t ← or_reject (Jws.parse codec token max_token_len token_type true)
    (key, issuer) ← signing_key x509 v.trust t.head now
    c ← or_reject (Jws.verify codec claims_keys true claims t key)
    valid std c
    ok (c, issuer)

  -- The switch of Verify.
  unfoldable pub check : Verifier → Claims → Text → Text → Text → ℕ → ℤ → Result (Unit {0})
  check v c issuer connector host port now = do
    refuse_if
        (not (text_eq c.issuer issuer)
          || not (is_empty v.trust.issuer) && not (text_eq c.issuer v.trust.issuer)
          || not (text_eq c.audience the_audience)
          || not (text_eq c.subject v.subject))
        invalid_capability
    refuse_if
        (ltb_ℤ (now +ℤ max_clock_skew) (unix c.issued_at)
          || not (ltb_ℤ (now -ℤ max_clock_skew) (unix c.expires_at)))
        invalid_capability
    refuse_if (not (text_eq c.connector_id connector)) wrong_connector
    refuse_if (not (text_eq c.host host) || not (c.port == port)) wrong_destination

  unfoldable pub authorize : Verifier → Text → Text → Text → ℕ → ℤ → Result Claims
  authorize v token connector host port now = do
    (c, issuer) ← parse v token now
    check v c issuer connector host port now
    ok c

  -- The lifetime of the count: ExpiresAt and the clock skew.
  abbrev pub ends : Claims → ℤ
  ends c = unix c.expires_at +ℤ max_clock_skew

  pub admit : Result Claims → ℤ → Opens (heap_of lib) → Opens (heap_of lib) × Result Claims
  admit (err r) now o = (o, err r)
  admit (ok c) now o =
      let (o', taken) = take (heap_of lib) c.jti (ends c) now o in
      (o', if taken then ok c else err exhausted)

  unfoldable pub verify :
      Verifier
      → Text
      → Text
      → Text
      → ℕ
      → ℤ
      → Opens (heap_of lib)
      → Opens (heap_of lib) × Result Claims
  unfolding admit
  verify v token connector host port now o = admit (authorize v token connector host port now) now o

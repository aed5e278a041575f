-- ===== src/Capability/Verify/Sound.antt =====
-- What an accepted capability was checked for, and what a refused one leaves.
use traversal_connector.Common.{
  ℕ, ◌≡◌, ◌≢◌, ◌⊎◌, Bool, true, not, ◌||◌, ◌&&◌, arith, subst, [], ◌∷◌, ◌↔◌, Text, text_eq,
  text_eq_iff, is_empty, ◌==◌,
}
use traversal_connector.Common.Int.{ℤ, ◌+ℤ◌, ◌-ℤ◌, ◌≤ℤ◌, ◌<ℤ◌, ltb_ℤ}
use traversal_connector.RawPipe.{
  Reason, Result, ok, err, >>=-eq-ok, refuse_if, refuse_if-ok, invalid_capability, wrong_connector,
  wrong_destination, exhausted,
}
use traversal_connector.Capability.{Claims, the_audience, valid}
use traversal_connector.Capability.Opens.{Opens}
use traversal_connector.Capability.Verify.{
  heap_of, Library, Verifier, parse, check, authorize, admit, verify, unix, max_clock_skew,
  or_reject, max_token_len, token_type, claims_keys,
}
use traversal_connector.Jws
use traversal_connector.Jws.Strict.{Carries, verify-Carries, verify-signed}
use traversal_connector.Capability.Chain.{signing_key}

is_empty_iff : (s : Text) → (is_empty s ≡ true) ↔ (s ≡ [])
is_empty_iff [] = ground arith
is_empty_iff (c ∷ s) = ground arith

or_reject-ok : {A : Type 0} (r : Jws.Result A) {a : A} → or_reject r ≡ ok a → r ≡ Jws.ok a
or_reject-ok (Jws.ok b) h = ground arith
or_reject-ok (Jws.err e) h = cc

module _ (lib : Library) where
  admit-ok :
      (r : Result Claims) (now : ℤ) (o o' : Opens (heap_of lib)) (c : Claims)
      → admit lib r now o ≡ (o', ok c)
      → r ≡ ok c
  unfolding admit
  admit-ok (err x) now o o' c e = ground arith
  admit-ok (ok d) now o o' c e = ground arith

  admit-err :
      (a : Result Claims) (now : ℤ) (o o' : Opens (heap_of lib)) (r : Reason)
      → admit lib a now o ≡ (o', err r)
      → r ≢ exhausted
      → (o' ≡ o) × (a ≡ err r)
  unfolding admit
  admit-err (err x) now o o' r e other = ground arith
  admit-err (ok d) now o o' r e other = ground arith

module _ (lib : Library) (v : Verifier lib) where
  -- The claims are for this verifier, this connector and this destination, at this time.
  pub record IsFor (c : Claims) (from to at : Text) (on : ℕ) (now : ℤ) : Type 0 where
    pub issuer_named : c.issuer ≡ from
    pub issuer_pinned : (v.trust.issuer ≡ []) ⊎ (c.issuer ≡ v.trust.issuer)
    pub audience : c.audience ≡ the_audience
    pub subject : c.subject ≡ v.subject
    pub issued : unix c.issued_at ≤ℤ now +ℤ max_clock_skew
    pub expires : now -ℤ max_clock_skew <ℤ unix c.expires_at
    pub connector : c.connector_id ≡ to
    pub host : c.host ≡ at
    pub port : c.port ≡ on

  -- A token whose signature verifies under the key that the trust selects, and whose claims, read
  -- from the part that the signature covers, are these, and valid.
  pub record IsAuthentic (token : Text) (now : ℤ) (c : Claims) (issuer : Text) : Type 0 where
    pub parsed : Jws.Token
    pub key : lib.codec.Key
    pub well_formed : Jws.parse lib.codec token max_token_len token_type true ≡ Jws.ok parsed
    pub trusted : signing_key lib.x509 v.trust parsed.head now ≡ ok (key, issuer)
    pub signed : Jws.signed lib.codec parsed key ≡ true
    pub carries : Carries lib.codec lib.claims token parsed.head key c
    pub claims_valid : valid lib.std c ≡ ok tt

  parse-IsAuthentic :
      (token : Text) (now : ℤ) (c : Claims) (issuer : Text)
      → parse lib v token now ≡ ok (c, issuer)
      → IsAuthentic token now c issuer
  unfolding parse
  parse-IsAuthentic token now c issuer e =
      let (t, p₁, e₁) =
        >>=-eq-ok (or_reject (Jws.parse lib.codec token max_token_len token_type true)) _ e in
      let ((key, from), p₂, e₂) = >>=-eq-ok (signing_key lib.x509 v.trust t.head now) _ e₁ in
      let (d, p₃, e₃) =
        >>=-eq-ok (or_reject (Jws.verify lib.codec claims_keys true lib.claims t key)) _ e₂ in
      let (_, p₄, e₄) = >>=-eq-ok (valid lib.std d) _ e₃ in
      let same : d ≡ c = ground arith in
      let spelled : from ≡ issuer = ground arith in
      record {
        parsed = t;
        key = key;
        well_formed = or_reject-ok (Jws.parse lib.codec token max_token_len token_type true) p₁;
        trusted = subst (λ i. signing_key lib.x509 v.trust t.head now ≡ ok (key, i)) spelled p₂;
        signed =
            verify-signed lib.codec claims_keys true lib.claims t key
              (or_reject-ok (Jws.verify lib.codec claims_keys true lib.claims t key) p₃);
        carries =
            subst (λ x. Carries lib.codec lib.claims token t.head key x) same
              (verify-Carries lib.codec claims_keys true lib.claims token max_token_len token_type
                true t key d
                (or_reject-ok (Jws.parse lib.codec token max_token_len token_type true) p₁)
                (or_reject-ok (Jws.verify lib.codec claims_keys true lib.claims t key) p₃));
        claims_valid = subst (λ x. valid lib.std x ≡ ok tt) same p₄;
      }

  abbrev misnamed : Claims → Text → Bool
  misnamed c issuer =
      not (text_eq c.issuer issuer)
      || not (is_empty v.trust.issuer) && not (text_eq c.issuer v.trust.issuer)
      || not (text_eq c.audience the_audience)
      || not (text_eq c.subject v.subject)

  abbrev untimely : Claims → ℤ → Bool
  untimely c now =
      ltb_ℤ (now +ℤ max_clock_skew) (unix c.issued_at)
      || not (ltb_ℤ (now -ℤ max_clock_skew) (unix c.expires_at))

  check_sound :
      (c : Claims) (issuer connector host : Text) (port : ℕ) (now : ℤ)
      → check lib v c issuer connector host port now ≡ ok tt
      → IsFor c issuer connector host port now
  unfolding check
  check_sound c issuer connector host port now e =
      let (_, p₁, e₁) = >>=-eq-ok (refuse_if (misnamed c issuer) invalid_capability) _ e in
      let (_, p₂, e₂) = >>=-eq-ok (refuse_if (untimely c now) invalid_capability) _ e₁ in
      let (_, p₃, p₄) =
        >>=-eq-ok (refuse_if (not (text_eq c.connector_id connector)) wrong_connector) _ e₂ in
      let named = refuse_if-ok (misnamed c issuer) invalid_capability p₁ in
      let timely = refuse_if-ok (untimely c now) invalid_capability p₂ in
      let ours = refuse_if-ok (not (text_eq c.connector_id connector)) wrong_connector p₃ in
      let there =
        refuse_if-ok (not (text_eq c.host host) || not (c.port == port)) wrong_destination p₄ in
      record {
        issuer_named = ground (arith, named, text_eq_iff c.issuer issuer);
        issuer_pinned =
            ground (arith, named, text_eq_iff c.issuer v.trust.issuer, is_empty_iff v.trust.issuer);
        audience = ground (arith, named, text_eq_iff c.audience the_audience);
        subject = ground (arith, named, text_eq_iff c.subject v.subject);
        issued = ground (arith, timely);
        expires = ground (arith, timely);
        connector = ground (arith, ours, text_eq_iff c.connector_id connector);
        host = ground (arith, there, text_eq_iff c.host host);
        port = ground (arith, there);
      }

  -- An accepted capability is signed by the key that the verifier's trust selects for its header,
  -- which also gives the issuer. The claims that are given out are read from the second of its three
  -- parts, which the signature covers. They are valid, and name that issuer (and the pinned one, if
  -- there is one), the audience, the verifier's subject, this connector and this destination; and the
  -- time is in their window, give or take the clock skew.
  pub verify_sound :
      (token connector host : Text) (port : ℕ) (now : ℤ) (o o' : Opens (heap_of lib)) (c : Claims)
      → verify lib v token connector host port now o ≡ (o', ok c)
      → (issuer : Text) × IsAuthentic token now c issuer × IsFor c issuer connector host port now
  unfolding verify authorize
  verify_sound token connector host port now o o' c e =
      let granted = admit-ok lib (authorize lib v token connector host port now) now o o' c e in
      let ((d, issuer), parsed, e₁) = >>=-eq-ok (parse lib v token now) _ granted in
      let (_, checked, e₂) = >>=-eq-ok (check lib v d issuer connector host port now) _ e₁ in
      let same : d ≡ c = ground arith in
      (
        issuer,
        subst (λ x. IsAuthentic token now x issuer) same
            (parse-IsAuthentic token now d issuer parsed),
        subst (λ x. IsFor x issuer connector host port now) same
            (check_sound d issuer connector host port now checked),
      )

  pub authorize-ok :
      (token connector host : Text) (port : ℕ) (now : ℤ) (c : Claims)
      → authorize lib v token connector host port now ≡ ok c
      → (issuer : Text) × IsFor c issuer connector host port now
  unfolding authorize
  authorize-ok token connector host port now c granted =
      let ((d, issuer), _, e₁) = >>=-eq-ok (parse lib v token now) _ granted in
      let (_, checked, e₂) = >>=-eq-ok (check lib v d issuer connector host port now) _ e₁ in
      let same : d ≡ c = ground arith in
      (
        issuer,
        subst (λ x. IsFor x issuer connector host port now) same
            (check_sound d issuer connector host port now checked),
      )

  -- A refusal for any reason but the open limit leaves the counts of every capability alone.
  pub verify_refused :
      (token connector host : Text) (port : ℕ) (now : ℤ) (o o' : Opens (heap_of lib)) (r : Reason)
      → verify lib v token connector host port now o ≡ (o', err r)
      → r ≢ exhausted
      → (o' ≡ o) × (authorize lib v token connector host port now ≡ err r)
  unfolding verify
  verify_refused token connector host port now o o' r e other =
      admit-err lib (authorize lib v token connector host port now) now o o' r e other

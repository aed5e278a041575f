-- ===== src/Capability/Chain/Agreement.antt =====
-- Two verifiers do not accept one token under two keys.
use traversal_connector.Common.{
  ◌≡◌, refl, Bool, not, ◌||◌, ◌==◌, true, false, Option, none, some, List, [], ◌∷◌, arith, Text,
  Bool-cases, Option-cases, inl, inr, ◌++◌, sym, ◌∙◌, ap, cut_prefix, cut_prefix-append,
}
use traversal_connector.Common.Int.{ℤ}
use traversal_connector.Jws.{Header}
use traversal_connector.RawPipe.{
  ok, >>=-eq-ok, refuse_if, refuse_if-ok, or_refuse, or_refuse-ok, invalid_capability,
}
use traversal_connector.Capability.{issuer_prefix}
use traversal_connector.Capability.Chain.{
  X509, Trust, parse_chain, check_environment_certificate, select_key, signing_key, chained_key,
  issuer_of, valid_environment, issuer_uri_prefix,
}

module _ {Key : Type 0} (x509 : X509 Key) where
  chained_key-pinned :
      (x5c : List Text) (roots : x509.Pool) (host : Text) (p : Key) (now : ℤ) (k : Key) (i : Text)
      → chained_key x509 x5c roots host (some p) now ≡ ok (k, i)
      → p ≡ k
  unfolding chained_key
  chained_key-pinned x5c roots host p now k i e =
      let (certs, _, e₁) = >>=-eq-ok (parse_chain x509 x5c) _ e in
      let ((key, issuer), _, e₂) =
        >>=-eq-ok (check_environment_certificate x509 certs roots host now) _ e₁ in
      elim (Bool-cases (x509.equal p key)) [
        | inl same ↦ x509.equal_sound p key same ∙ ground (arith, e₂)
        | inr differ ↦ absurd (ground (arith, e₂))
      ]

  select_key-pinned :
      (x : Option (List Text)) (c : Option (x509.Pool × Text)) (p k : Key) (issuer i : Text)
      (now : ℤ)
      → select_key x509 x c (some p) issuer now ≡ ok (k, i)
      → p ≡ k
  unfolding select_key
  select_key-pinned none c p k issuer i now e = ground arith
  select_key-pinned (some x5c) none p k issuer i now e = ground arith
  select_key-pinned (some x5c) (some (roots, host)) p k issuer i now e =
      chained_key-pinned x5c roots host p now k i e

  select_key-plain :
      (x : Option (List Text)) (q : Option Key) (k : Key) (issuer i : Text) (now : ℤ)
      → select_key x509 x none q issuer now ≡ ok (k, i)
      → q ≡ some k
  unfolding select_key
  select_key-plain none none k issuer i now e = absurd (cc)
  select_key-plain (some x) none k issuer i now e = absurd (cc)
  select_key-plain none (some p) k issuer i now e = ground arith
  select_key-plain (some x) (some p) k issuer i now e = ground arith

  -- A verifier that pins keys alone and one that pins the same keys and any roots never take a
  -- token as signed by two different keys.
  pub signing_key_agrees :
      (t u : Trust Key x509.Pool) (h : Header) (now : ℤ) (k l : Key) (i j : Text)
      → t.keys h.kid ≡ u.keys h.kid
      → t.chains ≡ none
      → signing_key x509 t h now ≡ ok (k, i)
      → signing_key x509 u h now ≡ ok (l, j)
      → k ≡ l
  unfolding signing_key
  signing_key_agrees t u h now k l i j same plain e f =
      let pinned : t.keys h.kid ≡ some k =
        select_key-plain h.x5c (t.keys h.kid) k t.issuer i now (rw plain at e) in
      select_key-pinned h.x5c u.chains k l u.issuer j now (rw (← same, pinned) at f)

  pub record IsCertified (roots : x509.Pool) (host : Text) (now : ℤ) (certs : List x509.Cert)
      (k : Key) (i : Text) : Type 0 where
    pub leaf : x509.Cert
    pub intermediates : List x509.Cert
    pub chain : certs ≡ leaf ∷ intermediates
    pub verified : x509.verify roots intermediates host now leaf ≡ true
    pub not_ca : x509.is_ca leaf ≡ false
    pub signs : x509.digital_signature leaf ≡ true
    pub names_host : x509.ip_addresses leaf ≡ 0
    pub key : x509.p256_key leaf ≡ some k
    pub environment : Text
    pub named : x509.uris leaf ≡ (issuer_uri_prefix ++ environment) ∷ []
    pub good : valid_environment environment ≡ true
    pub issuer : i ≡ issuer_prefix ++ environment

  issuer_of_sound :
      (us : List Text) (i : Text)
      → issuer_of x509 us ≡ ok i
      → (env : Text) × (us ≡ (issuer_uri_prefix ++ env) ∷ [])
        × (valid_environment env ≡ true)
        × (i ≡ issuer_prefix ++ env)
  unfolding issuer_of
  issuer_of_sound [] i e = absurd (cc)
  issuer_of_sound (u ∷ []) i e = elim (Option-cases (cut_prefix u issuer_uri_prefix)) [
    | inl missed ↦ absurd (ground (arith, missed))
    | inr (env, found) ↦ (
      env,
      ap (λ v. v ∷ []) (cut_prefix-append u issuer_uri_prefix env found),
      ground (arith, found),
      ground (arith, found),
    )
  ]
  issuer_of_sound (u ∷ v ∷ us) i e = absurd (cc)

  abbrev unfit : x509.Cert → Bool
  unfit leaf =
      x509.is_ca leaf || not (x509.digital_signature leaf) || not (x509.ip_addresses leaf == 0)

  -- An accepted chain begins with a certificate that verifies against the roots for the controller
  -- host, may sign, is no CA and names no IP address; the key is its P-256 key, and the issuer is
  -- the prefix and the one environment that it names, which is well formed.
  pub check_environment_certificate_sound :
      (certs : List x509.Cert) (roots : x509.Pool) (host : Text) (now : ℤ) (k : Key) (i : Text)
      → check_environment_certificate x509 certs roots host now ≡ ok (k, i)
      → IsCertified roots host now certs k i
  unfolding check_environment_certificate
  check_environment_certificate_sound [] roots host now k i e = absurd (cc)
  check_environment_certificate_sound (leaf ∷ rest) roots host now k i e =
      let (_, p₁, e₁) =
        >>=-eq-ok (refuse_if (not (x509.verify roots rest host now leaf)) invalid_capability) _ e in
      let (_, p₂, e₂) = >>=-eq-ok (refuse_if (unfit leaf) invalid_capability) _ e₁ in
      let (key, p₃, e₃) = >>=-eq-ok (or_refuse (x509.p256_key leaf) invalid_capability) _ e₂ in
      let (issuer, p₄, e₄) = >>=-eq-ok (issuer_of x509 (x509.uris leaf)) _ e₃ in
      let (env, named, good, spelled) = issuer_of_sound (x509.uris leaf) issuer p₄ in
      let fit = refuse_if-ok (unfit leaf) invalid_capability p₂ in
      record {
        leaf = leaf;
        intermediates = rest;
        chain = refl;
        verified = ground (
          arith,
          refuse_if-ok (not (x509.verify roots rest host now leaf)) invalid_capability p₁,
        );
        not_ca = ground (arith, fit);
        signs = ground (arith, fit);
        names_host = ground (arith, fit);
        key = or_refuse-ok (x509.p256_key leaf) invalid_capability p₃ ∙ cc e₄;
        environment = env;
        named = named;
        good = good;
        issuer = sym (cc e₄) ∙ spelled;
      }

-- ===== src/SignedConfig/Sound.antt =====
-- What an accepted configuration was checked for.
use traversal_connector.Common.{
  ◌<◌, ◌≡◌, refl, true, false, Option, none, some, [], ◌∷◌, ◌++◌, arith, Text, text_eq_iff,
  cut_prefix, Option-cases, inl, inr, switch, switch-none, cut_prefix-append, subst, sym,
}
use traversal_connector.Common.Int.{ℤ, pos, ◌+ℤ◌, ◌-ℤ◌, ◌≤ℤ◌, ◌<ℤ◌}
use traversal_connector.Jws
use traversal_connector.Jws.Strict.{Carries, verify-Carries, verify-signed}
use traversal_connector.SignedConfig.{
  Claims, signature_prefix, config_token_type, config_audience, max_config_token_len,
  config_clock_skew, unix, config_keys, accepted, cut_line, trim_cr, Library, faults, check_claims,
  check_key, check_token, check_signed, check_lines, verify,
}

cut_line-append : (s line rest : Text) → cut_line s ≡ some (line, rest) → s ≡ line ++ 10 ∷ rest
unfolding cut_line
cut_line-append [] line rest h = cc
cut_line-append (c ∷ s) line rest h = elim (Option-cases (cut_line s)) [
  | inl e ↦ ground arith
  | inr ((l, r), e) ↦ ground (arith, cut_line-append s l r e)
]

module _ (lib : Library) (keys : Text → Option lib.codec.Key) (connector : Text) where
  -- The claims are for this connector and this document, and the time is in their window.
  pub record IsFor (c : Claims) (document : Text) (now : ℤ) : Type 0 where
    pub audience : c.audience ≡ config_audience
    pub connector_id : c.connector_id ≡ connector
    pub version : 0 < c.version
    pub issued : pos 0 <ℤ c.issued_at
    pub window : c.issued_at <ℤ c.expires_at
    pub started : unix c.issued_at ≤ℤ now +ℤ config_clock_skew
    pub unexpired : now -ℤ config_clock_skew <ℤ unix c.expires_at
    pub digest : c.sha256 ≡ lib.sha256_hex document

  faults-IsFor :
      (c : Claims) (document : Text) (now : ℤ)
      → switch (faults lib keys connector document c now) ≡ none
      → IsFor c document now
  faults-IsFor c document now h =
      let (a, (n, (v, (w, (s, (x, (d, _))))))) =
        switch-none (faults lib keys connector document c now) h in
      record {
        audience = ground (arith, a, text_eq_iff c.audience config_audience);
        connector_id = ground (arith, n, text_eq_iff c.connector_id connector);
        version = ground (arith, v);
        issued = ground (arith, w);
        window = ground (arith, w);
        started = ground (arith, s);
        unexpired = ground (arith, x);
        digest = ground (arith, d, text_eq_iff c.sha256 (lib.sha256_hex document));
      }

  -- The object is a line with a token, and the document; the token is of the type for
  -- configurations, verifies under the key that it names, and has these claims, read from the part
  -- that the signature covers.
  pub record IsSigned (object document : Text) (c : Claims) : Type 0 where
    pub line : Text
    pub token : Text
    pub parsed : Jws.Token
    pub key : lib.codec.Key
    pub lines : object ≡ line ++ 10 ∷ document
    pub prefixed : trim_cr line ≡ signature_prefix ++ token
    pub well_formed :
        Jws.parse lib.codec token max_config_token_len config_token_type false ≡ Jws.ok parsed
    pub named : keys parsed.head.kid ≡ some key
    pub signed : Jws.signed lib.codec parsed key ≡ true
    pub carries : Carries lib.codec lib.claims token parsed.head key c

  check_claims-accepted :
      (document d : Text) (now : ℤ) (r : Jws.Result Claims) (c : Claims)
      → check_claims lib keys connector document now r ≡ accepted d c
      → (d ≡ document) × (r ≡ Jws.ok c) × IsFor c document now
  unfolding check_claims
  check_claims-accepted document d now (Jws.err Jws.malformed) c h = absurd (cc)
  check_claims-accepted document d now (Jws.err Jws.bad_header) c h = absurd (cc)
  check_claims-accepted document d now (Jws.err Jws.bad_signature) c h = absurd (cc)
  check_claims-accepted document d now (Jws.err Jws.bad_claims) c h = absurd (cc)
  check_claims-accepted document d now (Jws.ok c') c h =
      elim (Option-cases (switch (faults lib keys connector document c' now))) [
        | inl clear ↦
            let found : accepted document c' ≡ accepted d c = ground arith in
            let same : c' ≡ c = ground arith in
            let kept : d ≡ document = ground arith in
            (
              kept,
              ground arith,
              subst (λ x. IsFor x document now) same (faults-IsFor c' document now clear),
            )
        | inr (r, fault) ↦ absurd (ground arith)
      ]

  check_token-accepted :
      (document d : Text) (now : ℤ) (r : Jws.Result Jws.Token) (c : Claims)
      → check_token lib keys connector document now r ≡ accepted d c
      → (t : Jws.Token) × (key : lib.codec.Key) × (d ≡ document)
        × (r ≡ Jws.ok t)
        × (keys t.head.kid ≡ some key)
        × (Jws.signed lib.codec t key ≡ true)
        × (Jws.verify lib.codec config_keys false lib.claims t key ≡ Jws.ok c)
        × IsFor c document now
  unfolding check_token check_key
  check_token-accepted document d now (Jws.err Jws.malformed) c h = absurd (cc)
  check_token-accepted document d now (Jws.err Jws.bad_header) c h = absurd (cc)
  check_token-accepted document d now (Jws.err Jws.bad_signature) c h = absurd (cc)
  check_token-accepted document d now (Jws.err Jws.bad_claims) c h = absurd (cc)
  check_token-accepted document d now (Jws.ok t) c h = elim (Option-cases (keys t.head.kid)) [
    | inl absent ↦ absurd (ground arith)
    | inr (key, named) ↦
        let checked : check_claims lib keys connector document now
              (Jws.verify lib.codec config_keys false lib.claims t key)
            ≡ accepted d c =
          ground arith in
        let (kept, good, for) = check_claims-accepted document d now _ c checked in
        (
          t,
          key,
          kept,
          refl,
          named,
          verify-signed lib.codec config_keys false lib.claims t key good,
          good,
          for,
        )
  ]

  -- An accepted object is a signature line and the document that is given out; its token is of the
  -- type for configurations and verifies under the key that it names. The claims that are given out
  -- are read from the second of its three parts, which the signature covers; they are for this
  -- connector, have a version, and carry the document's digest; and the time is in their window, as
  -- time.Unix reads it, give or take the clock skew.
  pub accepted_sound :
      (now : ℤ) (object document : Text) (c : Claims)
      → verify lib keys connector now object ≡ accepted document c
      → IsSigned object document c × IsFor c document now
  unfolding verify check_lines check_signed
  accepted_sound now object document c h = elim (Option-cases (cut_line object)) [
    | inl e ↦ absurd (ground arith)
    | inr ((line, rest), e) ↦ elim (Option-cases (cut_prefix (trim_cr line) signature_prefix)) [
      | inl e' ↦ absurd (ground arith)
      | inr (token, e') ↦
          let checked : check_token lib keys connector rest now
                (Jws.parse lib.codec token max_config_token_len config_token_type false)
              ≡ accepted document c =
            ground arith in
          let (t, key, kept, good, named, signed, read, for) =
            check_token-accepted rest document now _ c checked in
          (
            record {
              line = line;
              token = token;
              parsed = t;
              key = key;
              lines =
                  subst (λ x. object ≡ line ++ 10 ∷ x) (sym kept)
                    (cut_line-append object line rest e);
              prefixed = cut_prefix-append (trim_cr line) signature_prefix token e';
              well_formed = good;
              named = named;
              signed = signed;
              carries =
                  verify-Carries lib.codec config_keys false lib.claims token max_config_token_len
                    config_token_type false t key c good read;
            },
            subst (λ x. IsFor c x now) (sym kept) for,
          )
    ]
  ]

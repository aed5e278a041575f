-- ===== src/Jws/Strict.antt =====
-- What a token that Parse and Verify accept is known to be.
use traversal_connector.Common.{
  ◌≡◌, refl, sym, ap, ◌∙◌, subst, ℕ, Bool, true, false, ◌&&◌, Option, none, some, List, [], ◌∷◌,
  ◌++◌, ltb, arith, Text, codes, all, length, text_eq, lacks, split, join, join-split, split-Lacks,
  Bool-cases, Option-cases, inl, inr,
}
use traversal_connector.Jws.{
  Codec, Header, Token, ok, signed, verify, verify_signed, parse, parse_parts, parts, Parts, three,
  not_three, split_dots, parts_of, after_dot, check_header, known_header, decode_segment,
  decode_raw, decode_object,
}

split_dots-split : (s : Text) → split_dots s ≡ split b'.' s
unfolding split_dots split
split_dots-split [] = refl
split_dots-split (c ∷ s) = ground (arith, split_dots-split s)

parts_of-three :
    (x a b c : Text) (xs : List Text) → parts_of x xs ≡ three a b c → (x ≡ a) × (xs ≡ b ∷ c ∷ [])
unfolding parts_of
parts_of-three x a b c [] e = cc
parts_of-three x a b c (y ∷ []) e = cc
parts_of-three x a b c (y ∷ z ∷ []) e = (ground arith, ground arith)
parts_of-three x a b c (y ∷ z ∷ w ∷ xs) e = cc

-- The three parts of a token, none of which has a dot.
pub record IsCompact (token a b c : Text) : Type 0 where
  pub spelled : token ≡ a ++ b'.' ∷ (b ++ b'.' ∷ c)
  pub header_plain : lacks b'.' a ≡ true
  pub payload_plain : lacks b'.' b ≡ true
  pub signature_plain : lacks b'.' c ≡ true

parts-IsCompact : (token a b c : Text) → parts token ≡ three a b c → IsCompact token a b c
unfolding parts join
parts-IsCompact token a b c e =
    let (x, y) = parts_of-three (split_dots token).0 a b c (split_dots token).1 e in
    let same = split_dots-split token in
    let pieces : split b'.' token ≡ (a, b ∷ c ∷ []) = ground (arith, same, x, y) in
    let lack =
      subst (λ (p : Text × List Text). (lacks b'.' p.0 && all (lacks b'.') p.1) ≡ true) pieces
        (split-Lacks b'.' token) in
    record {
      spelled =
          sym (join-split b'.' token) ∙ ap (λ (p : Text × List Text). join b'.' p.0 p.1) pieces;
      header_plain = ground (arith, lack);
      payload_plain = ground (arith, lack);
      signature_plain = ground (arith, lack);
    }

after_dot-append : (a b : Text) → lacks b'.' a ≡ true → after_dot (a ++ b'.' ∷ b) ≡ b
unfolding after_dot
after_dot-append [] b h = refl
after_dot-append (c ∷ a) b h = ground (arith, after_dot-append a b)

module _ (codec : Codec) where
  verify_signed-signed :
      {A : Type 0} (known : List (Text × Bool)) (ignore_unknown : Bool)
      (unmarshal : Text → Option A) (t : Token) (b : Bool) {a : A}
      → verify_signed codec known ignore_unknown unmarshal t b ≡ ok a
      → b ≡ true
  unfolding verify_signed
  verify_signed-signed known ignore_unknown unmarshal t true e = refl
  verify_signed-signed known ignore_unknown unmarshal t false e = cc

  -- Claims are given out only under a good signature.
  pub verify-signed :
      {A : Type 0} (known : List (Text × Bool)) (ignore_unknown : Bool)
      (unmarshal : Text → Option A) (t : Token) (key : codec.Key) {a : A}
      → verify codec known ignore_unknown unmarshal t key ≡ ok a
      → signed codec t key ≡ true
  unfolding verify
  verify-signed known ignore_unknown unmarshal t key e =
      verify_signed-signed known ignore_unknown unmarshal t (signed codec t key) e

  -- An accepted token: the header that is read from its first part, the claims that are read from
  -- its second, and the signature that its third holds of the two before.
  pub record Carries {A : Type 0} (unmarshal : Text → Option A) (token : Text) (head : Header)
      (key : codec.Key) (claims : A) : Type 0 where
    pub header : Text
    pub payload : Text
    pub signature : Text
    pub header_bytes : Text
    pub payload_bytes : Text
    pub signature_bytes : Text
    pub compact : IsCompact token header payload signature
    pub header_decoded : codec.base64_raw_url header ≡ some header_bytes
    pub header_read : codec.header header_bytes ≡ some head
    pub payload_decoded : codec.base64_raw_url payload ≡ some payload_bytes
    pub claims_read : unmarshal payload_bytes ≡ some claims
    pub signature_decoded : codec.base64_raw_url signature ≡ some signature_bytes
    pub verified : codec.es256 (header ++ b'.' ∷ payload) signature_bytes key ≡ true

  decode_segment-some :
      {A : Type 0} (known : List (Text × Bool)) (ignore_unknown : Bool)
      (unmarshal : Text → Option A) (segment : Text) (a : A)
      → decode_segment codec known ignore_unknown unmarshal segment ≡ some a
      → (raw : Text) × (codec.base64_raw_url segment ≡ some raw) × (unmarshal raw ≡ some a)
  unfolding decode_segment decode_raw decode_object
  decode_segment-some known ignore_unknown unmarshal segment a e =
      elim (Option-cases (codec.base64_raw_url segment)) [
        | inl absent ↦ absurd (ground arith)
        | inr (raw, found) ↦ elim (Option-cases (codec.object raw)) [
          | inl absent ↦ absurd (ground arith)
          | inr (obj, read) ↦ (raw, found, ground arith)
        ]
      ]

  check_header-ok :
      (typ input sig : Text) (h : Option Header) (t : Token)
      → check_header codec typ input sig h ≡ ok t
      → (h ≡ some t.head) × (t.input ≡ input) × (t.sig ≡ sig)
  unfolding check_header
  check_header-ok typ input sig none t e = cc
  check_header-ok typ input sig (some h) t e =
      elim (Bool-cases (text_eq h.alg (codes "ES256") && text_eq h.typ typ)) [
        | inl good ↦
            let same : ◌≡◌ {A = Token} (record { head = h; input = input; sig = sig }) t =
              ground arith in
            subst (λ (x : Token). (some h ≡ some x.head) × (x.input ≡ input) × (x.sig ≡ sig)) same
              (refl, refl, refl)
        | inr bad ↦ absurd (ground arith)
      ]

  parse_parts-ok :
      (max_len : ℕ) (typ : Text) (chained : Bool) (len : ℕ) (p : Parts) (t : Token)
      → parse_parts codec max_len typ chained len p ≡ ok t
      → (a : Text) × (b : Text) × (c : Text) × (p ≡ three a b c)
        × (decode_segment codec (known_header codec chained) false codec.header a ≡ some t.head)
        × (t.input ≡ a ++ b'.' ∷ b)
        × (t.sig ≡ c)
  unfolding parse_parts
  parse_parts-ok max_len typ chained len not_three t e = cc
  parse_parts-ok max_len typ chained len (three a b c) t e = elim (Bool-cases (ltb max_len len)) [
    | inl long ↦ absurd (ground arith)
    | inr fits ↦
        let (read, input, sig) =
          check_header-ok typ (a ++ b'.' ∷ b) c
            (decode_segment codec (known_header codec chained) false codec.header a) t
            (ground arith) in
        (a, b, c, refl, read, input, sig)
  ]

  verify_signed-claims :
      {A : Type 0} (known : List (Text × Bool)) (ignore_unknown : Bool)
      (unmarshal : Text → Option A) (t : Token) (b : Bool) (a : A)
      → verify_signed codec known ignore_unknown unmarshal t b ≡ ok a
      → decode_segment codec known ignore_unknown unmarshal (after_dot t.input) ≡ some a
  unfolding verify_signed
  verify_signed-claims known ignore_unknown unmarshal t false a e = cc
  verify_signed-claims known ignore_unknown unmarshal t true a e =
      elim (Option-cases
        (decode_segment codec known ignore_unknown unmarshal (after_dot t.input))) [
          | inl absent ↦ absurd (ground arith)
          | inr (x, found) ↦ ground arith
        ]

  signed-bytes :
      (t : Token) (key : codec.Key)
      → signed codec t key ≡ true
      → (bytes : Text) × (codec.base64_raw_url t.sig ≡ some bytes)
        × (codec.es256 t.input bytes key ≡ true)
  unfolding signed
  signed-bytes t key e = elim (Option-cases (codec.base64_raw_url t.sig)) [
    | inl absent ↦ absurd (ground arith)
    | inr (bytes, found) ↦ (bytes, found, ground arith)
  ]

  -- Parse and Verify give out the claims of the token that they were given.
  pub verify-Carries :
      {A : Type 0} (known : List (Text × Bool)) (ignore_unknown : Bool)
      (unmarshal : Text → Option A) (token : Text) (max_len : ℕ) (typ : Text) (chained : Bool)
      (t : Token) (key : codec.Key) (a : A)
      → parse codec token max_len typ chained ≡ ok t
      → verify codec known ignore_unknown unmarshal t key ≡ ok a
      → Carries unmarshal token t.head key a
  unfolding parse verify
  verify-Carries known ignore_unknown unmarshal token max_len typ chained t key a parsed verified =
      let (first, payload, sig, split_, headed, input, tail) =
        parse_parts-ok max_len typ chained (length token) (parts token) t parsed in
      let compact = parts-IsCompact token first payload sig split_ in
      let (header_bytes, h₁, h₂) = decode_segment-some _ _ codec.header first t.head headed in
      let claimed =
        verify_signed-claims known ignore_unknown unmarshal t (signed codec t key) a verified in
      let second : after_dot t.input ≡ payload =
        ap after_dot input ∙ after_dot-append first payload compact.header_plain in
      let (payload_bytes, p₁, p₂) =
        decode_segment-some known ignore_unknown unmarshal (after_dot t.input) a claimed in
      let (bytes, s₁, s₂) =
        signed-bytes t key (verify-signed known ignore_unknown unmarshal t key verified) in
      record {
        header = first;
        payload = payload;
        signature = sig;
        header_bytes = header_bytes;
        payload_bytes = payload_bytes;
        signature_bytes = bytes;
        compact = compact;
        header_decoded = h₁;
        header_read = h₂;
        payload_decoded = ap codec.base64_raw_url (sym second) ∙ p₁;
        claims_read = p₂;
        signature_decoded = ap codec.base64_raw_url (sym tail) ∙ s₁;
        verified = ap (λ (x : Text). codec.es256 x bytes key) (sym input) ∙ s₂;
      }

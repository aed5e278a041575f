-- ===== src/Upstream/Forward/Passed.antt =====
-- What becomes of a response that is passed on: its headers, and the cap on streams.
use traversal_connector.Common.{
  ◌↔◌, ◌⊎◌, inl, inr, not, ◌||◌, map, lower, keep, take, ◌==◌, text_eq, text_eq_iff, codes, [], ◌∷◌,
  Bool-cases, ◌≡◌, ◌≢◌, refl, sym, ap, ◌∙◌, subst, Bool, true, false, List, arith, Text,
}
use mathlib.Core.List.{Memᴰ}
use traversal_connector.Upstream.{
  Response, Library, Client, strip_traversal_headers, is_traversal_header, media_type_of, is_grpc,
}
use traversal_connector.Upstream.Forward.{
  Cap, uncapped, capped_conn, capped_body, is_empty_list, Limits, cap_stream,
}

kept_first :
    {A : Type 0} (f : A → Bool) (xs : List A) (y x : A)
    → (Memᴰ x (keep f xs) → Memᴰ x xs × (f x ≡ true))
    → f y ≡ true
    → Memᴰ x (y ∷ keep f xs)
    → Memᴰ x (y ∷ xs) × (f x ≡ true)
kept_first f xs y x others good (Memᴰ.head e) = (Memᴰ.head e, ap f e ∙ good)
kept_first f xs y x others good (Memᴰ.tail m) =
    let (there, fine) = others m in (Memᴰ.tail there, fine)

keep-only :
    {A : Type 0} (f : A → Bool) (xs : List A) (x : A)
    → Memᴰ x (keep f xs)
    → Memᴰ x xs × (f x ≡ true)
keep-only f [] x m = elim m [ ]
keep-only f (y ∷ xs) x m = elim (Bool-cases (f y)) [
  | inl yes_ ↦ kept_first f xs y x (keep-only f xs x) yes_ (rw (yes_) at m)
  | inr no_ ↦ let (there, good) = keep-only f xs x (rw (no_) at m) in (Memᴰ.tail there, good)
]

keep-all :
    {A : Type 0} (f : A → Bool) (xs : List A) {x : A} → Memᴰ x xs → f x ≡ true → Memᴰ x (keep f xs)
keep-all f [] m h = elim m [ ]
keep-all f (y ∷ xs) (Memᴰ.head e) h = rw (sym (ap f e) ∙ h) (Memᴰ.head e)
keep-all f (y ∷ xs) (Memᴰ.tail m) h = elim (Bool-cases (f y)) [
  | inl yes_ ↦ rw (yes_) (Memᴰ.tail (keep-all f xs m h))
  | inr no_ ↦ rw (no_) (keep-all f xs m h)
]

no_rules : {A : Type 0} (xs : List A) → is_empty_list xs ≡ true → xs ≡ []
no_rules [] e = refl
no_rules (x ∷ xs) e = cc

some_rules : {A : Type 0} (xs : List A) → is_empty_list xs ≡ false → xs ≢ []
some_rules [] e q = cc
some_rules (x ∷ xs) e q = cc

module _ (lib : Library) (limits : Limits) where
  -- A response that is passed on: as it came, but for the headers under the connector's own names.
  pub record PassedOn (resp s : Response) : Type 0 where
    pub status : s.status ≡ resp.status
    pub body : s.body ≡ resp.body
    pub content_type : s.content_type ≡ resp.content_type
    pub content_encoding : s.content_encoding ≡ resp.content_encoding
    pub content_length : s.content_length ≡ resp.content_length
    pub accept_ranges : s.accept_ranges ≡ resp.accept_ranges
    pub content_dependent : s.content_dependent ≡ resp.content_dependent
    pub trailer : s.trailer ≡ resp.trailer
    pub no_mark : s.redacted_header ≡ false
    pub kept_headers :
        (n : Text)
        → Memᴰ n s.traversal_headers
          ↔ (Memᴰ n resp.traversal_headers × (map lower (take 12 n) ≢ codes "x-traversal-"))

  -- A stream: a connection that was taken over, server-sent events, or gRPC.
  pub data IsStream (c : Client lib) (s : Response) : Type 0 where
    taken_over : s.status ≡ 101 → IsStream c s
    events : media_type_of lib c s.content_type ≡ codes "text/event-stream" → IsStream c s
    rpc : is_grpc lib c (media_type_of lib c s.content_type) ≡ true → IsStream c s

  -- Which responses are cut off, and how: exactly the streams, where there is a cap and a rule.
  pub record CapFor (c : Client lib) (s : Response) (cap : Cap) : Type 0 where
    pub capped : limits.stream_cap ≡ true → c.rules ≢ [] → IsStream c s → cap ≢ uncapped
    pub only : cap ≢ uncapped → (limits.stream_cap ≡ true) × (c.rules ≢ []) × IsStream c s
    pub conn : cap ≡ capped_conn → s.status ≡ 101
    pub read :
        (rpc : Bool)
        → cap ≡ capped_body rpc
        → (s.status ≢ 101) × (rpc ≡ is_grpc lib c (media_type_of lib c s.content_type))

  keep-Mem :
      (names : List Text) (n : Text)
      → Memᴰ n (keep (λ x. not (is_traversal_header x)) names)
        ↔ (Memᴰ n names × (map lower (take 12 n) ≢ codes "x-traversal-"))
  unfolding is_traversal_header
  keep-Mem names n =
      let own : Text → Bool = λ x. not (is_traversal_header x) in
      (
        λ m.
            let (there, good) = keep-only own names n m in
            (
              there,
              λ e. ground (arith, good, text_eq_iff (map lower (take 12 n)) (codes "x-traversal-")),
            ),
        λ (there, other).
            keep-all own names there
              (ground (arith, other, text_eq_iff (map lower (take 12 n)) (codes "x-traversal-"))),
      )

  pub strip-PassedOn : (resp : Response) → PassedOn resp (strip_traversal_headers resp)
  unfolding strip_traversal_headers
  strip-PassedOn resp = record {
    status = refl;
    body = refl;
    content_type = refl;
    content_encoding = refl;
    content_length = refl;
    accept_ranges = refl;
    content_dependent = refl;
    trailer = refl;
    no_mark = refl;
    kept_headers = keep-Mem resp.traversal_headers;
  }

  capped-CapFor :
      (c : Client lib) (s : Response) (cap : Cap)
      → limits.stream_cap ≡ true
      → c.rules ≢ []
      → IsStream c s
      → ((cap ≡ capped_conn) × (s.status ≡ 101))
        ⊎ ((cap ≡ capped_body (is_grpc lib c (media_type_of lib c s.content_type)))
            × (s.status ≢ 101))
      → CapFor c s cap
  capped-CapFor c s cap on rules stream (inl (e, there)) = record {
    capped = λ _ _ _ q. ground arith;
    only = λ _. (on, rules, stream);
    conn = λ _. there;
    read = λ b q. absurd (ground arith);
  }
  capped-CapFor c s cap on rules stream (inr (e, other)) = record {
    capped = λ _ _ _ q. ground arith;
    only = λ _. (on, rules, stream);
    conn = λ q. absurd (ground arith);
    read = λ b q. (other, ground arith);
  }

  uncapped-CapFor :
      (c : Client lib) (s : Response)
      → (limits.stream_cap ≡ true → c.rules ≢ [] → ¬ IsStream c s)
      → CapFor c s uncapped
  uncapped-CapFor c s off = record {
    capped = λ on rules stream. absurd (off on rules stream);
    only = λ q. absurd (q refl);
    conn = λ q. absurd (cc);
    read = λ b q. absurd (cc);
  }

  of_no_kind :
      (c : Client lib) (s : Response)
      → s.status ≢ 101
      → (text_eq (media_type_of lib c s.content_type) (codes "text/event-stream")
          || is_grpc lib c (media_type_of lib c s.content_type))
        ≡ false
      → ¬ IsStream c s
  of_no_kind c s other plain (taken_over e) = other e
  of_no_kind c s other plain (events e) =
      ground
        (arith, plain, text_eq_iff (media_type_of lib c s.content_type) (codes "text/event-stream"))
  of_no_kind c s other plain (rpc e) = ground (arith, plain)

  of_kind :
      (c : Client lib) (s : Response)
      → (text_eq (media_type_of lib c s.content_type) (codes "text/event-stream")
          || is_grpc lib c (media_type_of lib c s.content_type))
        ≡ true
      → IsStream c s
  of_kind c s e =
      elim (Bool-cases (text_eq (media_type_of lib c s.content_type) (codes "text/event-stream"))) [
        | inl yes_ ↦
            events (
              (text_eq_iff (media_type_of lib c s.content_type) (codes "text/event-stream")).0 yes_)
        | inr no_ ↦ rpc (ground (arith, no_))
      ]

  pub cap_stream-CapFor : (c : Client lib) (s : Response) → CapFor c s (cap_stream lib limits c s)
  unfolding cap_stream
  cap_stream-CapFor c s = elim (Bool-cases (not limits.stream_cap || is_empty_list c.rules)) [
    | inl off ↦
        rw (off) (uncapped-CapFor c s (λ on rules _. ground (arith, rules, no_rules c.rules)))
    | inr active ↦
        let on : limits.stream_cap ≡ true = ground arith in
        let rules = some_rules c.rules (ground arith) in
        elim (Bool-cases (s.status == 101)) [
          | inl over ↦
              let there : s.status ≡ 101 = ground arith in
              capped-CapFor c s (cap_stream lib limits c s) on rules (taken_over there)
                (inl (ground arith, there))
          | inr other ↦
              elim (Bool-cases (
                text_eq (media_type_of lib c s.content_type) (codes "text/event-stream")
                || is_grpc lib c (media_type_of lib c s.content_type))) [
                  | inl stream ↦
                      capped-CapFor c s (cap_stream lib limits c s) on rules (of_kind c s stream)
                        (inr (ground arith, ground arith))
                  | inr plain ↦
                      let none_ : uncapped ≡ cap_stream lib limits c s = ground arith in
                      subst (CapFor c s) none_
                        (uncapped-CapFor c s (λ _ _. of_no_kind c s (ground arith) plain))
                ]
        ]
  ]

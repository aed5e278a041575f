-- ===== src/Upstream/Forward/Sent.antt =====
-- What goes upstream of a request.
use traversal_connector.Common.{
  ◌≤◌, ◌↔◌, ◌⊎◌, inl, inr, ◌++◌, take, text_eq_iff, is_empty, http, [], ◌∷◌, Bool-cases, ℕ, zero,
  suc, ◌≡◌, ◌≢◌, refl, sym, ap, Bool, true, false, ◌&&◌, Option, none, some, append-nil, List, ltb,
  arith, length, length-take, Text,
}
use traversal_connector.Upstream.{Library, Client, is_grpc}
use traversal_connector.Upstream.Forward.{
  Request, Outgoing, auto, h2c, http1, Limits, limited, body_of, outgoing,
}

empty_iff : (s : Text) → (is_empty s ≡ true) ↔ (s ≡ [])
empty_iff [] = ground arith
empty_iff (c ∷ s) = ground arith

module _ (lib : Library) (limits : Limits) where
  open limits use {max_request}

  take-append : {A : Type 0} (n : ℕ) (xs : List A) → (rest : List A) × (xs ≡ take n xs ++ rest)
  take-append zero xs = (xs, refl)
  take-append (suc n) [] = ([], refl)
  take-append (suc n) (x ∷ xs) = let (rest, e) = take-append n xs in (rest, ap (λ ys. x ∷ ys) e)

  -- The body of a request, which may have none.
  abbrev pub body_text : Option Text → Text
  body_text none = []
  body_text (some body) = body

  -- What goes out of a request: to where it is forwarded, by the transport for it, and of its body
  -- all, or as much as the limit, behind which it is cut.
  pub record Goes (c : Client lib) (r : Request) (scheme target : Text) (o : Outgoing)
      : Type 0 where
    pub scheme_kept : o.scheme ≡ scheme
    pub host_kept : o.host ≡ target
    pub upgraded : r.upgrade ≢ [] → o.transport ≡ http1
    pub clear_rpc :
        r.upgrade ≡ [] → scheme ≡ http → is_grpc lib c r.content_type ≡ true → o.transport ≡ h2c
    pub otherwise :
        r.upgrade ≡ []
        → (scheme ≢ http) ⊎ (is_grpc lib c r.content_type ≡ false)
        → o.transport ≡ auto
    pub rest : Text
    pub prefix : body_text r.body ≡ o.body ++ rest
    pub whole_body : o.cut ≡ false → rest ≡ []
    pub cut_off : o.cut ≡ true → (ltb 0 max_request ≡ true) × (length o.body ≡ max_request)
    pub bounded : ltb 0 max_request ≡ true → length o.body ≤ max_request

  -- A body that goes out, of one that comes in.
  record Cut (body out : Text) (cut : Bool) : Type 0 where
    rest : Text
    prefix : body ≡ out ++ rest
    whole_body : cut ≡ false → rest ≡ []
    cut_off : cut ≡ true → (ltb 0 max_request ≡ true) × (length out ≡ max_request)

  limited-Cut : (body : Text) → let (out, cut) = limited lib limits body in Cut body out cut
  limited-Cut body = elim (Bool-cases (ltb 0 max_request && ltb max_request (length body))) [
    | inl long ↦
        let (rest, e) = take-append max_request body in
        rw (long) (record {
          rest = rest;
          prefix = e;
          whole_body = λ q. cc;
          cut_off = λ _. (ground arith, ground (arith, length-take max_request body));
        })
    | inr fits ↦ rw (fits) (record {
      rest = [];
      prefix = sym (append-nil body);
      whole_body = λ _. refl;
      cut_off = λ q. cc;
    })
  ]

  body_of-Cut :
      (body : Option Text)
      → let (out, cut) = body_of lib limits body in Cut (body_text body) out cut
  body_of-Cut none = record { rest = []; prefix = refl; whole_body = λ _. refl; cut_off = λ q. cc }
  body_of-Cut (some body) = limited-Cut body

  limited-bound :
      (body : Text) → (ltb 0 max_request ≡ true) → length (limited lib limits body).0 ≤ max_request
  limited-bound body h = ground (arith, length-take max_request body)

  body_of-bound :
      (body : Option Text)
      → (ltb 0 max_request ≡ true)
      → length (body_of lib limits body).0 ≤ max_request
  body_of-bound none h = ground arith
  body_of-bound (some body) h = limited-bound body h

  pub outgoing-Goes :
      (c : Client lib) (r : Request) (scheme target : Text)
      → Goes c r scheme target (outgoing lib limits c r scheme target)
  outgoing-Goes c r scheme target =
      let cut = body_of-Cut r.body in
      let upgrade = empty_iff r.upgrade in
      record {
        scheme_kept = refl;
        host_kept = refl;
        upgraded = λ given. ground (arith, given, upgrade);
        clear_rpc = λ plain clear rpc. ground (arith, plain, upgrade, text_eq_iff scheme http);
        otherwise = λ plain other. ground (arith, plain, other, upgrade, text_eq_iff scheme http);
        rest = cut.rest;
        prefix = cut.prefix;
        whole_body = cut.whole_body;
        cut_off = cut.cut_off;
        bounded = body_of-bound r.body;
      }

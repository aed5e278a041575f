-- ===== src/Capability/Sample.antt =====
-- A concrete library for the witnesses: a container/heap that keeps its slice sorted, and a
-- codec whose tokens are `h.p.s` with one header and one set of claims.
use traversal_connector.Common.{
  ℕ, ◌≡◌, ◌↔◌, refl, sym, ◌∙◌, inl, inr, Bool, true, false, Option, none, some, List, [], ◌∷◌,
  if◌then◌else◌, All, Text, codes, text_eq, Bool-cases, map, lower, ◌==◌, ==_iff, ◌++◌,
}
use traversal_connector.Common.Int.{pos}
use traversal_connector.Hostname.Sample.{sample_std}
use traversal_connector.Jws.{Codec, Header, plain_header_keys}
use traversal_connector.Capability.{Claims}
use traversal_connector.Capability.Chain.{X509}
use traversal_connector.Capability.Opens.{Seen, Heap}
use traversal_connector.Capability.JtiHeap.{Methods}
use traversal_connector.Capability.JtiHeap.Meets.{Meets}
use traversal_connector.Capability.JtiHeap.Heaped.{Container, jti_heap}
use traversal_connector.Capability.Verify.{Library, claims_keys, token_type}

-- The order of two elements, as Less sees them side by side.
abbrev pub is_less : Methods → Seen → Seen → Bool
is_less m x y = elim (m.less (x ∷ y ∷ []) 0 1) [ none ↦ false | some b ↦ b ]

unfoldable pub insert : Methods → Seen → List Seen → List Seen
insert m x [] = x ∷ []
insert m x (y ∷ ys) = let rest = insert m x ys in if is_less m y x then y ∷ rest else x ∷ y ∷ ys

unfoldable pub root : Methods → List Seen → Option (Seen × List Seen)
root m [] = none
root m (x ∷ h) = some (x, h)

-- A sorted list is a heap.
abbrev pub Sorted : (Seen → Seen → Bool) → List Seen → Type 0
Sorted before [] = Unit
Sorted before (x ∷ h) = All (λ y. before y x ≡ false) h × Sorted before h

pub insert-items :
    (m : Methods) (x : Seen) (h : List Seen)
    → (P : Seen → Type 0) → All P (insert m x h) ↔ (P x × All P h)
unfolding insert
insert-items m x [] P = ((λ a. a), (λ a. a))
insert-items m x (y ∷ ys) P = elim (Bool-cases (is_less m y x)) [
  | inl first ↦ rw (first) (
    (λ a. let (b, c) = (insert-items m x ys P).0 a.1 in (b, (a.0, c))),
    (λ a. (a.1.0, (insert-items m x ys P).1 (a.0, a.1.1))),
  )
  | inr after ↦ rw (after) ((λ a. a), (λ a. a))
]

is_less-before :
    (m : Methods) (before : Seen → Seen → Bool) (x y : Seen)
    → Meets m before
    → is_less m x y ≡ before x y
is_less-before m before x y meets = rw (is_less, meets.less (x ∷ y ∷ []) 0 1 x y refl refl) refl

none_before :
    (m : Methods) (before : Seen → Seen → Bool) (x y : Seen) (ys : List Seen)
    → Meets m before
    → before y x ≡ false
    → All (λ z. before z y ≡ false) ys
    → All (λ z. before z x ≡ false) ys
none_before m before x y [] meets e h = tt
none_before m before x y (z ∷ ys) meets e (h, hs) =
    (meets.weak z y x h e, none_before m before x y ys meets e hs)

pub insert-Sorted :
    (m : Methods) (before : Seen → Seen → Bool) (x : Seen) (h : List Seen)
    → Meets m before
    → Sorted before h
    → Sorted before (insert m x h)
unfolding insert
insert-Sorted m before x [] meets v = (tt, tt)
insert-Sorted m before x (y ∷ ys) meets (least, v) = elim (Bool-cases (is_less m y x)) [
  | inl first ↦
      let e : before x y ≡ false =
        meets.asymmetric y x (sym (is_less-before m before y x meets) ∙ first) in
      rw (first) (
        (insert-items m x ys (λ z. before z y ≡ false)).1 (e, least),
        insert-Sorted m before x ys meets v,
      )
  | inr after ↦
      let e : before y x ≡ false = sym (is_less-before m before y x meets) ∙ after in
      rw (after) ((e, none_before m before x y ys meets e least), (least, v))
]

pub irreflexive : (b : Bool) → (b ≡ true → b ≡ false) → b ≡ false
irreflexive true h = h refl
irreflexive false h = refl

unfoldable pub sample_container : Container
unfolding insert root
sample_container = record {
  push = insert;
  pop = root;
  IsHeap = Sorted;
  empty_heap = λ before. tt;
  push_heap = insert-Sorted;
  push_items = λ m before x h meets v. insert-items m x h;
  pop_heap = λ m before x h meets v. (h, refl, v.1, refl, λ P. ((λ a. a), (λ a. a)));
  root_first = λ m before x h meets v. (irreflexive (before x x) (meets.asymmetric x x), v.0);
}

abbrev pub sample_heap : Heap
sample_heap = jti_heap sample_container

abbrev sample_header : Header
sample_header = record { alg = codes "ES256"; typ = token_type; kid = codes "k1"; x5c = none }

-- Every payload is one capability, to db.internal:5432 through connector c1, good from second 100
-- to second 400.
abbrev pub sample_claims : Claims
sample_claims = record {
  issuer = codes "traversal-raw-tunnel/prod";
  audience = codes "traversal-raw-tunnel";
  subject = codes "integration-proxy";
  organization_id = codes "o";
  integration_id = codes "i";
  connector_id = codes "c1";
  consumer_id = codes "u";
  session_id = codes "s";
  host = codes "db.internal";
  port = 5432;
  jti = codes "j1";
  issued_at = pos 100;
  expires_at = pos 400;
}

abbrev null_free : Text × Bool → Text × Bool
null_free e = (e.0, false)

abbrev pub sample_codec : Codec
sample_codec = record {
  Key = ℕ;
  base64_raw_url = some;
  object = λ raw.
      some (map null_free (if text_eq raw (codes "h") then plain_header_keys else claims_keys));
  tokens = λ raw. some [];
  header = λ raw. some sample_header;
  to_lower = map lower;
  es256 = λ input sig key. key == 7;
}

pub key_equal : (a b : ℕ) → (a == b) ≡ true → a ≡ b
key_equal a b h = (==_iff a b).0 h

-- A certificate is the environment that it names: it certifies key 8.
abbrev pub sample_x509 : X509 ℕ
sample_x509 = record {
  Cert = Text;
  Pool = ℕ;
  base64_strict = some;
  parse_certificate = some;
  is_ca = λ c. false;
  digital_signature = λ c. true;
  ip_addresses = λ c. 0;
  p256_key = λ c. some 8;
  uris = λ c. (codes "spiffe://traversal.com/capability-issuer/" ++ c) ∷ [];
  verify = λ roots intermediates host now leaf. true;
  equal = λ a b. a == b;
  equal_sound = key_equal;
}

unfoldable pub sample_library : Library
sample_library = record {
  std = sample_std;
  codec = sample_codec;
  x509 = sample_x509;
  claims = λ raw. some sample_claims;
  container = sample_container;
}

-- ===== src/Hostname/Canonical.antt =====
-- The canonical spelling of a host is one: it is canonical itself, and a canonical name is not
-- read as an address.
use traversal_connector.Common.{
  ℕ, ◌<◌, ◌≡◌, refl, ◌⊎◌, inl, inr, Bool, true, false, ◌||◌, none, some, List, [], ◌∷◌, map, arith,
  ◌==◌, all, any, All, Text, is_empty, lower, cut_prefix, Option-cases, Bool-cases, text_eq_iff,
  text_eq_refl, ap, ◌∙◌,
}
use traversal_connector.Hostname.{
  Addr, v4, v6, unmap, zone, is_digit, is_label_byte, Std, trim_dot, extend, labels, last_label,
  numeric, bad_label, is_name, canonical, is_canonical,
}

abbrev pub name_byte : ℕ → Bool
name_byte c = is_label_byte c || c == b'.'

abbrev pub plain_byte : ℕ → Bool
plain_byte c = is_digit c || c == b'.'

all-name_byte :
    (s : Text)
    → all is_label_byte (labels s).0 ≡ true
    → any bad_label (labels s).1 ≡ false
    → all name_byte s ≡ true
unfolding labels bad_label
all-name_byte [] p q = refl
all-name_byte (c ∷ s) p q = elim (Bool-cases (c == b'.')) [
  | inl dot ↦ ground (arith, all-name_byte s)
  | inr other ↦ ground (arith, all-name_byte s)
]

bad_label-last :
    (l : Text) (ls : List Text)
    → any bad_label (l ∷ ls) ≡ false
    → bad_label (last_label l ls) ≡ false
unfolding last_label
bad_label-last l [] h = ground arith
bad_label-last l (m ∷ ms) h = bad_label-last m ms (ground arith)

is_empty-last-cons :
    (c : ℕ) (l : Text) (ls : List Text)
    → (ls ≡ [] → is_empty l ≡ false)
    → is_empty (last_label (c ∷ l) ls) ≡ false
    → is_empty (last_label l ls) ≡ false
unfolding last_label
is_empty-last-cons c l [] g h = g refl
is_empty-last-cons c l (m ∷ ms) g h = h

labels-cons_nonempty :
    (b : ℕ) (s : Text) → (labels (b ∷ s)).1 ≡ [] → is_empty (labels (b ∷ s)).0 ≡ false
unfolding labels
labels-cons_nonempty b s e = ground arith

last_label-extend :
    (a : ℕ) (p : Text × List Text)
    → (p.1 ≡ [] → is_empty p.0 ≡ false)
    → is_empty (last_label (extend a p).0 (extend a p).1) ≡ false
    → is_empty (last_label p.0 p.1) ≡ false
last_label-extend a p g h = elim (Bool-cases (a == b'.')) [
  | inl dot ↦ unfold last_label in ground arith
  | inr other ↦ is_empty-last-cons a p.0 p.1 g (ground arith)
]

last_label-cons :
    (a b : ℕ) (s : Text)
    → is_empty (last_label (labels (a ∷ b ∷ s)).0 (labels (a ∷ b ∷ s)).1) ≡ false
    → is_empty (last_label (labels (b ∷ s)).0 (labels (b ∷ s)).1) ≡ false
unfolding labels
last_label-cons a b s h = last_label-extend a (labels (b ∷ s)) (labels-cons_nonempty b s) h

trim_dot-labels :
    (s : Text) → is_empty (last_label (labels s).0 (labels s).1) ≡ false → trim_dot s ≡ s
unfolding trim_dot labels last_label
trim_dot-labels [] h = refl
trim_dot-labels (a ∷ []) h = ground arith
trim_dot-labels (a ∷ b ∷ s) h = ap (λ t. a ∷ t) (trim_dot-labels (b ∷ s) (last_label-cons a b s h))

numeric-digits : (l : Text) → all is_digit l ≡ true → numeric l ≡ true
unfolding numeric cut_prefix
numeric-digits [] h = refl
numeric-digits (a ∷ []) h = ground arith
numeric-digits (a ∷ b ∷ l) h = ground arith

all-digits-labels :
    (s : Text)
    → all plain_byte s ≡ true
    → (all is_digit (labels s).0 ≡ true) × (all (all is_digit) (labels s).1 ≡ true)
unfolding labels
all-digits-labels [] h = (refl, refl)
all-digits-labels (c ∷ s) h = elim (Bool-cases (c == b'.')) [
  | inl dot ↦ ground (arith, all-digits-labels s)
  | inr other ↦ ground (arith, all-digits-labels s)
]

all-digits-last :
    (l : Text) (ls : List Text)
    → all is_digit l ≡ true
    → all (all is_digit) ls ≡ true
    → all is_digit (last_label l ls) ≡ true
unfolding last_label
all-digits-last l [] p q = p
all-digits-last l (m ∷ ms) p q = all-digits-last m ms (ground arith) (ground arith)

name_byte-no_colon : (s : Text) → all name_byte s ≡ true → any (λ c. c == b':') s ≡ false
name_byte-no_colon [] h = refl
name_byte-no_colon (c ∷ s) h = ground (arith, name_byte-no_colon s)

name_byte-ascii : (s : Text) → all name_byte s ≡ true → All (λ c. c < 128) s
name_byte-ascii [] h = tt
name_byte-ascii (c ∷ s) h = ground (arith, name_byte-ascii s)

name_byte-lower : (s : Text) → all name_byte s ≡ true → map lower s ≡ s
name_byte-lower [] h = refl
name_byte-lower (c ∷ s) h = ground (arith, name_byte-lower s)

pub is_name-facts :
    (h : Text)
    → is_name h ≡ true
    → (all name_byte h ≡ true) × (trim_dot h ≡ h) × (all plain_byte h ≡ false)
unfolding is_name
is_name-facts h e =
    let l = (labels h).0 in
    let ls = (labels h).1 in
    let good : any bad_label (l ∷ ls) ≡ false = ground arith in
    let last : bad_label (last_label l ls) ≡ false = bad_label-last l ls good in
    let digits : all plain_byte h ≡ true → numeric (last_label l ls) ≡ true = (λ d.
      numeric-digits _
        (all-digits-last l ls (all-digits-labels h d).0 (all-digits-labels h d).1)) in
    let word : numeric (last_label l ls) ≡ false = ground arith in
    (
      all-name_byte h (unfold bad_label in ground arith) (ground arith),
      trim_dot-labels h (unfold bad_label in ground arith),
      ground (arith, digits),
    )

parse_addr-name : (std : Std) (h : Text) → is_name h ≡ true → std.parse_addr h ≡ none
parse_addr-name std h e =
    let (bytes, _, plain) = is_name-facts h e in
    elim (Option-cases (std.parse_addr h)) [
      | inl missed ↦ missed
      | inr (a, found) ↦ ground (arith, std.parse_shape h a found, name_byte-no_colon h bytes)
    ]

-- A name that passes the checks is its own canonical form.
pub canonical-name : (std : Std) (h : Text) → is_name h ≡ true → canonical std h ≡ (h, true)
unfolding canonical
canonical-name std h e =
    let (bytes, trimmed, _) = is_name-facts h e in
    let lowered : std.to_lower h ≡ h =
      std.to_lower_ascii h (name_byte-ascii h bytes) ∙ name_byte-lower h bytes in
    ground (arith, parse_addr-name std h e, lowered, trimmed)

unmap_idem : (a : Addr) → unmap (unmap a) ≡ unmap a
unfolding unmap
unmap_idem (v4 a) = refl
unmap_idem (v6 a z) = ground arith

pub zone-unmap : (a : Addr) → zone a ≡ [] → zone (unmap a) ≡ []
unfolding unmap
zone-unmap (v4 a) h = refl
zone-unmap (v6 a z) h = ground arith

-- An address with no zone has a canonical form, the text of the unmapped address, which is its
-- own canonical form.
pub canonical-addr :
    (std : Std) (a : Addr)
    → zone a ≡ []
    → canonical std (std.show_addr (unmap a)) ≡ (std.show_addr (unmap a), true)
unfolding canonical
canonical-addr std a h =
    ground (
      arith,
      std.parse_show (unmap a) (unmap_idem a) (zone-unmap a h),
      unmap_idem a,
      zone-unmap a h,
    )

is_empty-nil : (s : Text) → is_empty s ≡ true → s ≡ []
is_empty-nil [] h = refl
is_empty-nil (c ∷ s) h = cc

-- The two ways to be accepted: the text of an address with no zone, unmapped; or a name.
pub canonical-cases :
    (std : Std) (host h : Text)
    → canonical std host ≡ (h, true)
    → ((a : Addr) × (std.parse_addr host ≡ some a) × (zone a ≡ []) × (h ≡ std.show_addr (unmap a)))
      ⊎ ((std.parse_addr host ≡ none) × (h ≡ trim_dot (std.to_lower host)) × (is_name h ≡ true))
unfolding canonical
canonical-cases std host h e = elim (Option-cases (std.parse_addr host)) [
  | inl missed ↦ inr (missed, ground arith, ground arith)
  | inr (a, found) ↦ inl (a, found, is_empty-nil (zone a) (ground arith), ground arith)
]

-- Whatever `Canonical` accepts is canonical: taking the canonical form again changes nothing.
pub canonical_idempotent :
    (std : Std) (host h : Text) → canonical std host ≡ (h, true) → canonical std h ≡ (h, true)
canonical_idempotent std host h e = elim (canonical-cases std host h e) [
  | inl (a, found, bare, same) ↦ rw same (canonical-addr std a bare)
  | inr (missed, same, name) ↦ canonical-name std h name
]

pub canonical-is_canonical :
    (std : Std) (host h : Text) → canonical std host ≡ (h, true) → is_canonical std h ≡ true
unfolding is_canonical
canonical-is_canonical std host h e = rw (canonical_idempotent std host h e) (text_eq_refl h)

pub is_canonical-canonical :
    (std : Std) (host : Text) → is_canonical std host ≡ true → canonical std host ≡ (host, true)
unfolding is_canonical
is_canonical-canonical std host h = ground (arith, text_eq_iff (canonical std host).0 host)

-- A canonical host that is no address is a name by the rules of `Canonical`, so none of its labels
-- is empty or longer than 63 bytes, and its last label is not one that reads as an IPv4 part.
pub is_canonical-is_name :
    (std : Std) (host : Text)
    → is_canonical std host ≡ true
    → std.parse_addr host ≡ none
    → is_name host ≡ true
is_canonical-is_name std host h missed =
    elim (canonical-cases std host host (is_canonical-canonical std host h)) [
      | inl (a, found, _, _) ↦ absurd (cc)
      | inr (_, _, name) ↦ name
    ]

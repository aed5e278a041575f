-- ===== src/Hostname/Authority.antt =====
-- A destination has one spelling.
use traversal_connector.Common.{
  ℕ, ◌<◌, ◌≡◌, refl, ◌⊎◌, inl, inr, true, Option, none, some, [], ◌∷◌, arith, all, Text, codes,
  text_eq, text_eq_iff, text_eq_refl, Option-cases, Bool-cases, sym,
}
use traversal_connector.Common.Decimal.{
  parse_uint16, format_uint16, parse_uint16-format, format_uint16-digits, parse_uint16-lt,
}
use traversal_connector.Hostname.{
  unmap, Std, no_bracket, join_host_port, canonical, is_canonical, split_checked, split_authority,
  port_of, authority,
}
use traversal_connector.Hostname.Canonical.{
  canonical-cases, is_canonical-canonical, canonical-is_canonical, zone-unmap, name_byte,
  is_name-facts,
}

split_checked_sound :
    (std : Std) (text h p host : Text) (port : ℕ) (r : Option ℕ)
    → (r ≡ parse_uint16 p)
    → split_checked std text h p r ≡ some (host, port)
    → (host ≡ h)
      × (p ≡ format_uint16 port)
      × (text ≡ join_host_port h p)
      × (0 < port)
      × (port < 65536)
unfolding split_checked
split_checked_sound std text h p host port none q e = absurd (ground arith)
split_checked_sound std text h p host port (some n) q e =
    let same : n ≡ port = ground arith in
    let written : text_eq (format_uint16 n) p ≡ true = ground arith in
    let joined : text_eq (join_host_port h p) text ≡ true = ground arith in
    (
      ground arith,
      cc (same, (text_eq_iff _ _).0 written),
      sym ((text_eq_iff _ _).0 joined),
      ground arith,
      rw (← same) (parse_uint16-lt p n (sym q)),
    )

-- An accepted authority is the join of its canonical host and its port in decimal, from 1 to
-- 65535: no second text names the same destination.
pub split_authority_sound :
    (std : Std) (text host : Text) (port : ℕ)
    → split_authority std text ≡ some (host, port)
    → (text ≡ join_host_port host (format_uint16 port))
      × (is_canonical std host ≡ true)
      × (0 < port)
      × (port < 65536)
unfolding split_authority
split_authority_sound std text host port e = elim (Option-cases (std.split_host_port text)) [
  | inl missed ↦ absurd (ground arith)
  | inr ((h, p), found) ↦ elim (Bool-cases (is_canonical std h)) [
    | inl good ↦
        let (same, decimal, joined, lo, hi) =
          split_checked_sound std text h p host port (parse_uint16 p) refl (ground arith) in
        (rw (same, ← decimal) joined, rw same good, lo, hi)
    | inr bad ↦ absurd (ground arith)
  ]
]

name_byte-no_bracket : (s : Text) → all name_byte s ≡ true → all no_bracket s ≡ true
name_byte-no_bracket [] h = refl
name_byte-no_bracket (c ∷ s) h = ground (arith, name_byte-no_bracket s)

is_canonical-no_bracket :
    (std : Std) (host : Text) → is_canonical std host ≡ true → all no_bracket host ≡ true
is_canonical-no_bracket std host h =
    elim (canonical-cases std host host (is_canonical-canonical std host h)) [
      | inl (a, _, bare, same) ↦ rw same (std.show_no_bracket (unmap a) (zone-unmap a bare))
      | inr (_, _, name) ↦ name_byte-no_bracket host (is_name-facts host name).0
    ]

-- Every destination of a canonical host and a port from 1 to 65535 has that spelling: splitting it
-- gives the host and the port back.
pub split_authority-join :
    (std : Std) (host : Text) (port : ℕ)
    → is_canonical std host ≡ true
    → 0 < port
    → port < 65536
    → split_authority std (join_host_port host (format_uint16 port)) ≡ some (host, port)
unfolding split_authority split_checked
split_authority-join std host port h lo hi = ground (
  arith,
  std.split_join host (format_uint16 port) (is_canonical-no_bracket std host h)
      (format_uint16-digits port hi),
  parse_uint16-format port hi,
  text_eq_refl (format_uint16 port),
  text_eq_refl (join_host_port host (format_uint16 port)),
)

-- What a URL's port, or its absence, says of the port number.
abbrev pub Means : Text → Text → ℕ → Type 0
Means scheme port n =
    (port ≡ format_uint16 n)
    ⊎ ((port ≡ [])
        × (((scheme ≡ codes "http") × (n ≡ 80)) ⊎ ((scheme ≡ codes "https") × (n ≡ 443))))

port_of_sound :
    (scheme p : Text) (n : ℕ) → port_of scheme p ≡ some n → (0 < n) × (n < 65536) × Means scheme p n
unfolding port_of
port_of_sound scheme [] n e =
    let http = text_eq_iff scheme (codes "http") in
    let https = text_eq_iff scheme (codes "https") in
    elim (Bool-cases (text_eq scheme (codes "http"))) [
      | inl h ↦
          let d : n ≡ 80 = ground arith in (omega arith, omega arith, inr (refl, inl (http.0 h, d)))
      | inr h ↦
          let k : text_eq scheme (codes "https") ≡ true = ground arith in
          let d : n ≡ 443 = ground arith in
          (omega arith, omega arith, inr (refl, inr (https.0 k, d)))
    ]
port_of_sound scheme (c ∷ p) n e = elim (Option-cases (parse_uint16 (c ∷ p))) [
  | inl missed ↦ absurd (ground arith)
  | inr (m, found) ↦
      let same : m ≡ n = ground arith in
      let written : text_eq (format_uint16 m) (c ∷ p) ≡ true = ground arith in
      (
        ground arith,
        rw (← same) (parse_uint16-lt (c ∷ p) m found),
        inl (rw (← same) (sym ((text_eq_iff _ _).0 written))),
      )
]

-- The destination of a URL is canonical, and its port is the one written, in its only decimal
-- form, or the default of the scheme where none is written.
pub authority_sound :
    (std : Std) (scheme hostname port host : Text) (n : ℕ)
    → authority std scheme hostname port ≡ some (host, n)
    → (is_canonical std host ≡ true) × (0 < n) × (n < 65536) × Means scheme port n
unfolding authority
authority_sound std scheme hostname port host n e =
    let spelled : canonical std hostname ≡ (host, true) = ground arith in
    let (lo, hi, means) = port_of_sound scheme port n (ground arith) in
    (canonical-is_canonical std hostname host spelled, lo, hi, means)

-- ===== src/Hostname.antt =====
-- connector-lib/internal/hostname/hostname.go, connector-lib/capability/host.go, and Authority of
-- connector-lib/rawpipe/http.go: the one spelling of a destination.
pub mod Canonical
pub mod Authority
pub mod Sample
mod Tests
use traversal_connector.Common.Decimal.{parse_uint16, format_uint16}
use traversal_connector.Common.{
  ℕ, ◌+◌, ◌*◌, ◌-◌, ◌/◌, ◌%◌, ◌^◌, ◌<◌, ◌≡◌, ◌⊎◌, Bool, true, false, not, ◌&&◌, ◌||◌, Option, none,
  some, List, [], ◌∷◌, ◌++◌, map, ltb, leb, ◌==◌, if◌then◌else◌, length, all, any, All, Text, codes,
  text_eq, is_empty, lower, cut_prefix, has_suffix,
}

-- A netip.Addr: an IPv4 address, or an IPv6 address and its zone.
pub data Addr : Type 0 where
  v4 : ℕ → Addr
  v6 : ℕ → Text → Addr

-- Addr.Unmap: ::ffff:a.b.c.d becomes a.b.c.d, whatever its zone.
unfoldable pub unmap : Addr → Addr
unmap (v4 a) = v4 a
unmap (v6 a z) = if a / 2 ^ 32 == 65535 then v4 (a % 2 ^ 32) else v6 a z

abbrev pub zone : Addr → Text
zone (v4 a) = []
zone (v6 a z) = z

abbrev pub is_digit : ℕ → Bool
is_digit c = leb b'0' c && leb c b'9'

abbrev pub is_hex : ℕ → Bool
is_hex c = is_digit c || leb b'a' c && leb c b'f'

abbrev pub is_label_byte : ℕ → Bool
is_label_byte c = leb b'a' c && leb c b'z' || is_digit c || c == b'-' || c == b'_'

-- net.JoinHostPort.
unfoldable pub join_host_port : Text → Text → Text
join_host_port host port =
    if any (λ c. c == b':') host then b'[' ∷ (host ++ (codes "]:" ++ port)) else host ++ b':' ∷ port

abbrev pub no_bracket : ℕ → Bool
no_bracket c = not (c == b'[' || c == b']')

-- What the code takes of the standard library's strings, net and net/netip, with their documented
-- behaviour.
pub record Std : Type 0 where
  pub parse_addr : Text → Option Addr
  pub show_addr : Addr → Text
  pub to_lower : Text → Text
  pub split_host_port : Text → Option (Text × Text)
  -- ParseAddr reads back what String writes of an address with no zone that is not IPv4-mapped.
  pub parse_show : (a : Addr) → unmap a ≡ a → zone a ≡ [] → parse_addr (show_addr a) ≡ some a
  -- The text of an address with no zone has no bracket.
  pub show_no_bracket : (a : Addr) → zone a ≡ [] → all no_bracket (show_addr a) ≡ true
  -- SplitHostPort takes apart what JoinHostPort makes of a host with no bracket and a decimal port.
  pub split_join :
      (h p : Text)
      → all no_bracket h ≡ true
      → all is_digit p ≡ true
      → split_host_port (join_host_port h p) ≡ some (h, p)
  -- An IPv6 literal has a colon; an IPv4 literal is digits and dots.
  pub parse_shape :
      (s : Text) (a : Addr)
      → parse_addr s ≡ some a
      → (any (λ c. c == b':') s ≡ true) ⊎ (all (λ c. is_digit c || c == b'.') s ≡ true)
  -- ToLower of an ASCII text works byte by byte.
  pub to_lower_ascii : (s : Text) → All (λ c. c < 128) s → to_lower s ≡ map lower s

-- strings.TrimSuffix(s, ".").
unfoldable pub trim_dot : Text → Text
trim_dot [] = []
trim_dot (a ∷ []) = if a == b'.' then [] else a ∷ []
trim_dot (a ∷ b ∷ s) = a ∷ trim_dot (b ∷ s)

-- strings.Split(s, "."), by the label that is being read and those after it.
abbrev extend : ℕ → Text × List Text → Text × List Text
extend c (l, ls) = if c == b'.' then ([], l ∷ ls) else (c ∷ l, ls)

pub labels : Text → Text × List Text
labels [] = ([], [])
labels (c ∷ s) = extend c (labels s)

pub last_label : Text → List Text → Text
last_label l [] = l
last_label l (m ∷ ms) = last_label m ms

-- strings.Trim(s, set) == "" holds exactly when every byte is in the set.
pub numeric_tail : Text → Option Text → Bool
numeric_tail l (some hex) = all is_hex hex
numeric_tail l none = all is_digit l

pub numeric : Text → Bool
unfolding numeric_tail
numeric label = numeric_tail label (cut_prefix label (codes "0x"))

pub bad_label : Text → Bool
bad_label l = is_empty l || ltb 63 (length l) || not (all is_label_byte l)

-- The checks of `Canonical` on a name that is no address, lowercased and without its final dot.
unfoldable pub is_name : Text → Bool
unfolding labels last_label numeric bad_label
is_name h =
    let (l, ls) = labels h in
    not (is_empty h || ltb 253 (length h))
    && not (any bad_label (l ∷ ls))
    && not (numeric (last_label l ls))

-- The port of Authority in rawpipe/http.go, of a URL's scheme and Port().
unfoldable pub port_of : Text → Text → Option ℕ
port_of scheme [] =
    if text_eq scheme (codes "http")
    then some 80
    else if text_eq scheme (codes "https")
    then some 443
    else none
port_of scheme (c ∷ p) = elim (parse_uint16 (c ∷ p)) [
  | none ↦ none
  | some port ↦ if port == 0 || not (text_eq (format_uint16 port) (c ∷ p)) then none else some port
]

module _ (std : Std) where
  open std use {parse_addr, show_addr, to_lower, split_host_port}

  canonical_name : Text → Text × Bool
  unfolding is_name
  canonical_name h = if is_name h then (h, true) else ([], false)

  canonical_of : Text → Option Addr → Text × Bool
  unfolding canonical_name trim_dot
  canonical_of host (some a) = (show_addr (unmap a), is_empty (zone a))
  canonical_of host none = canonical_name (trim_dot (to_lower host))

  unfoldable pub canonical : Text → Text × Bool
  unfolding canonical_of
  canonical host = canonical_of host (parse_addr host)

  unfoldable pub is_canonical : Text → Bool
  is_canonical host = let (c, ok) = canonical host in ok && text_eq c host

  -- SplitAuthority, from what net.SplitHostPort returned.
  split_checked : Text → Text → Text → Option ℕ → Option (Text × ℕ)
  split_checked authority host p none = none
  split_checked authority host p (some port) =
      if port == 0
        || not (text_eq (format_uint16 port) p)
        || not (text_eq (join_host_port host p) authority)
      then none
      else some (host, port)

  split_parts : Text → Option (Text × Text) → Option (Text × ℕ)
  unfolding split_checked
  split_parts authority none = none
  split_parts authority (some (host, p)) =
      if is_canonical host then split_checked authority host p (parse_uint16 p) else none

  pub split_authority : Text → Option (Text × ℕ)
  unfolding split_parts
  split_authority authority = split_parts authority (split_host_port authority)

  -- Absolute: a name gains a trailing dot, so that a search list cannot rewrite it.
  unfoldable pub absolute : Text → Text
  absolute host = elim (parse_addr host) [ some a ↦ host | none ↦ host ++ codes "." ]

  -- Authority of rawpipe/http.go, of a URL's scheme, Hostname() and Port().
  unfoldable pub authority : Text → Text → Text → Option (Text × ℕ)
  unfolding port_of
  authority scheme hostname port =
      let (host, ok) = canonical hostname in
      if ok then elim (port_of scheme port) [ none ↦ none | some n ↦ some (host, n) ] else none

-- ===== src/DialPolicy.antt =====
-- connector-lib/dialpolicy/dialpolicy.go: which destinations a pipe may reach.
pub mod Forbidden
pub mod Dial
pub mod Barred
pub mod Sample
mod Tests
use traversal_connector.Common.{
  ℕ, ◌+◌, ◌*◌, ◌-◌, ◌/◌, ◌%◌, ◌^◌, Bool, true, false, not, ◌&&◌, ◌||◌, Option, none, some, List, [],
  ◌∷◌, ◌++◌, map, ltb, ◌==◌, if◌then◌else◌, is_empty, any, all, take, Text, codes, text_eq,
  has_suffix, keep,
}
use traversal_connector.Common.Decimal.{format_uint16}
use traversal_connector.Hostname.{Addr, v4, v6, unmap, Std, absolute, join_host_port}
use traversal_connector.RawPipe.{
  Reason, forbidden_address, dns_failed, dial_failed, Result, ok, err, ◌>>=◌, ◌>>◌, refuse_if,
}

-- A netip.Prefix: the address, its zone gone, and the length.
pub data Prefix : Type 0 where
  in_v4 in_v6 : ℕ → ℕ → Prefix
  invalid : Prefix

-- Prefix.Contains: the same family, no zone, and the same leading bits.
unfoldable pub contains : Prefix → Addr → Bool
contains (in_v4 p n) (v4 a) = a / 2 ^ (32 - n) == p / 2 ^ (32 - n)
contains (in_v6 p n) (v6 a z) = is_empty z && a / 2 ^ (128 - n) == p / 2 ^ (128 - n)
contains _ _ = false

abbrev pub ip4 : ℕ → ℕ → ℕ → ℕ → ℕ
ip4 a b c d = ((a * 256 + b) * 256 + c) * 256 + d

-- The floor of every policy.
abbrev pub forbidden_prefixes : List Prefix
forbidden_prefixes =
    in_v4 0 8
    ∷ in_v4 (ip4 127 0 0 0) 8
    ∷ in_v4 (ip4 169 254 0 0) 16
    ∷ in_v4 (ip4 224 0 0 0) 3
    ∷ in_v4 (ip4 100 100 100 200) 32
    ∷ in_v4 (ip4 168 63 129 16) 32
    ∷ in_v6 0 96
    ∷ in_v6 (0xfe80 * 2 ^ 112) 10
    ∷ in_v6 (0xff00 * 2 ^ 112) 8
    ∷ in_v6 (0xfd00_0ec2 * 2 ^ 96) 32
    ∷ in_v6 (0xfd20_00ce * 2 ^ 96 + 0x254) 128
    ∷ []

-- Byte i of the sixteen of an IPv6 address, and the IPv4 address of four bytes.
abbrev pub byte : ℕ → ℕ → ℕ
byte a i = a / 2 ^ (8 * (15 - i)) % 256

abbrev pub nat64 : ℕ → ℕ
nat64 a = ip4 (byte a 12) (byte a 13) (byte a 14) (byte a 15)

abbrev pub local_nat64 : ℕ → ℕ
local_nat64 a = ip4 (byte a 6) (byte a 7) (byte a 9) (byte a 10)

abbrev pub six_to_four : ℕ → ℕ
six_to_four a = ip4 (byte a 2) (byte a 3) (byte a 4) (byte a 5)

abbrev pub teredo : ℕ → ℕ
teredo a = ip4 (255 - byte a 12) (255 - byte a 13) (255 - byte a 14) (255 - byte a 15)

-- The IPv6 prefixes that carry an IPv4 address, and where it sits.
abbrev pub embedded : List (Prefix × (ℕ → ℕ))
embedded =
    (in_v6 (0x0064_ff9b * 2 ^ 96) 96, nat64)
    ∷ (in_v6 (0x0064_ff9b_0001 * 2 ^ 80) 48, local_nat64)
    ∷ (in_v6 (0x2002 * 2 ^ 112) 16, six_to_four)
    ∷ (in_v6 (0x2001_0000 * 2 ^ 96) 32, teredo)
    ∷ []

-- Addr.WithZone("").
abbrev pub no_zone : Addr → Addr
no_zone (v4 a) = v4 a
no_zone (v6 a z) = v6 a []

-- Addr.As16, as a number: an IPv4 address is in its mapped form.
abbrev pub as16 : Addr → ℕ
as16 (v4 a) = 0xffff * 2 ^ 32 + a
as16 (v6 a z) = a

-- The addresses to check: the address itself, and each IPv4 address that it carries.
pub carried : Addr → List (Prefix × (ℕ → ℕ)) → List Addr
carried a [] = []
carried a ((p, ipv4) ∷ es) =
    let rest = carried a es in if contains p a then v4 (ipv4 (as16 a)) ∷ rest else rest

pub forbidden : List Prefix → Addr → Bool
unfolding carried contains
forbidden deny a =
    let b = no_zone (unmap a) in any (λ c. any (λ d. contains d c) deny) (b ∷ carried b embedded)

unfoldable pub forbidden_name : Text → Bool
unfolding text_eq has_suffix
forbidden_name host =
    text_eq host (codes "localhost")
    || text_eq host (codes "metadata.google.internal")
    || text_eq host (codes "metadata.goog")
    || text_eq host (codes "instance-data.ec2.internal")
    || has_suffix host (codes ".localhost")

-- Config: the forward proxy by its Host, if any.
pub record Config : Type 0 where
  pub proxy : Option Text
  pub proxy_resolves : Bool
  pub extra_forbidden : List Prefix

pub record Policy : Type 0 where
  pub config : Config
  pub deny : List Prefix

abbrev pub bit_len : Addr → ℕ
bit_len (v4 a) = 32
bit_len (v6 a z) = 128

-- netip.PrefixFrom(addr, addr.BitLen()); the addresses of an interface have no zone.
abbrev pub host_prefix : Addr → Prefix
host_prefix (v4 a) = in_v4 a 32
host_prefix (v6 a z) = in_v6 a 128

-- An IPv4-mapped prefix would never match, since addresses are unmapped before they are checked.
abbrev pub is_mapped : Prefix → Bool
is_mapped (in_v6 p n) = p / 2 ^ 32 == 65535
is_mapped _ = false

abbrev pub is_valid : Prefix → Bool
is_valid invalid = false
is_valid _ = true

-- Prefix.Masked.
abbrev pub masked : Prefix → Prefix
masked (in_v4 p n) = in_v4 (p / 2 ^ (32 - n) * 2 ^ (32 - n)) n
masked (in_v6 p n) = in_v6 (p / 2 ^ (128 - n) * 2 ^ (128 - n)) n
masked invalid = invalid

-- The loop of New over ExtraForbidden; none is its error.
unfoldable pub add_extra : List Prefix → List Prefix → Option (List Prefix)
add_extra deny [] = some deny
add_extra deny (p ∷ ps) =
    let rest = add_extra (deny ++ masked p ∷ []) ps in
    if not (is_valid p) || is_mapped p then none else rest

-- New, with the addresses of the host's interfaces, or their error.
unfoldable pub new : Config → Option (List Addr) → Option Policy
unfolding add_extra
new cfg own = elim (add_extra forbidden_prefixes cfg.extra_forbidden) [
  | none ↦ none
  | some deny ↦ elim own [
    | none ↦ none
    | some addrs ↦
        some (record { config = cfg; deny = deny ++ map (λ a. host_prefix (unmap a)) addrs })
  ]
]

-- What a dial does, for the audit: CONNECT to the proxy for an authority, or TCP to addresses.
pub data Target : Type 0 where
  through_proxy : Text → Text → Target
  direct : List Addr → ℕ → Target

abbrev pub literal_forbidden : List Prefix → Option Addr → Bool
literal_forbidden deny none = false
literal_forbidden deny (some a) = forbidden deny a

abbrev pub is_literal : Option Addr → Bool
is_literal none = false
is_literal (some a) = true

-- What LookupNetIP gave, if anything: eight addresses at most.
abbrev pub answers : Option (List Addr) → Result (List Addr)
answers none = err dns_failed
answers (some []) = err dns_failed
answers (some (a ∷ as_)) = ok (take 8 (a ∷ as_))

-- The library, and the resolver: none is an error of LookupNetIP.
module _ (std : Std) (lookup : Text → Option (List Addr)) where
  resolve : Text → Result (List Addr)
  resolve host = answers (lookup (absolute std host))

  destinations : Text → Option Addr → Result (List Addr)
  unfolding resolve
  destinations host (some a) = ok (a ∷ [])
  destinations host none = resolve host

  -- The dial without a proxy.
  plan_direct : Policy → Text → ℕ → Option Addr → Result Target
  unfolding destinations
  plan_direct p host port literal = do
    addrs ← destinations host literal
    refuse_if (any (forbidden p.deny) addrs) forbidden_address
    ok (direct addrs port)

  -- The dial through the proxy `via`.
  plan_proxied : Policy → Text → ℕ → Bool → Text → Result Target
  plan_proxied p host port is_literal via = do
    refuse_if (not is_literal && not p.config.proxy_resolves) forbidden_address
    ok (through_proxy via (join_host_port host (format_uint16 port)))

  plan_for : Policy → Text → ℕ → Option Addr → Option Text → Result Target
  unfolding plan_direct plan_proxied
  plan_for p host port literal none = plan_direct p host port literal
  plan_for p host port literal (some via) = plan_proxied p host port (is_literal literal) via

  -- Dial up to its first connection: where it goes, or why it refuses.
  pub plan : Policy → Text → ℕ → Result Target
  unfolding plan_for
  plan p host port = do
    refuse_if (literal_forbidden p.deny (std.parse_addr host) || forbidden_name host)
        forbidden_address
    plan_for p host port (std.parse_addr host) p.config.proxy

-- How one attempt of a race ended, and what the race does with its connection.
pub data Attempt : Type 0 where
  failed : Attempt
  connected : ℕ → Attempt

pub record Race : Type 0 where
  pub winner : Option ℕ
  pub closed : List ℕ

-- The loop of race over the results, in the order in which they arrive.
unfoldable pub race_from : Race → List Attempt → Race
race_from r [] = r
race_from r (failed ∷ rs) = race_from r rs
race_from r (connected c ∷ rs) =
    race_from
      (elim r.winner [
        | none ↦ record r { winner = some c }
        | some w ↦ record r { closed = c ∷ r.closed }
      ])
      rs

pub race : List Attempt → Race
unfolding race_from
race rs = race_from (record { winner = none; closed = [] }) rs

-- ===== src/Hostname/Sample.antt =====
-- A concrete library for the witnesses: addresses are written in unary, an IPv4 one behind a dot
-- and an IPv6 one behind a colon.
use traversal_connector.Common.{
  ℕ, zero, suc, ◌<◌, ◌≡◌, refl, ◌⊎◌, inl, inr, Bool, true, false, ◌||◌, Option, none, some, [], ◌∷◌,
  ◌++◌, map, arith, ◌==◌, if◌then◌else◌, all, any, All, length, Text, lower, Bool-cases, ap,
}
use traversal_connector.Hostname.{
  Addr, v4, v6, unmap, zone, is_digit, no_bracket, join_host_port, Std,
}

abbrev pub zeros : ℕ → Text
zeros zero = []
zeros (suc n) = b'0' ∷ zeros n

abbrev pub is_zero : ℕ → Bool
is_zero c = c == b'0'

abbrev pub parse_addr : Text → Option Addr
parse_addr [] = none
parse_addr (c ∷ s) =
    if all is_zero s
    then if c == b'.'
      then some (v4 (length s))
      else if c == b':'
      then some (v6 (length s) [])
      else none
    else none

abbrev pub show_addr : Addr → Text
show_addr (v4 n) = b'.' ∷ zeros n
show_addr (v6 n z) = b':' ∷ zeros n

-- The text up to a byte, and the text behind it.
abbrev pub cut : ℕ → Text → Option (Text × Text)
cut b [] = none
cut b (c ∷ s) =
    if c == b then some ([], s) else elim (cut b s) [ none ↦ none | some (l, r) ↦ some (c ∷ l, r) ]

abbrev pub after_bracket : Option (Text × Text) → Option (Text × Text)
after_bracket none = none
after_bracket (some (h, [])) = none
after_bracket (some (h, c ∷ p)) = if c == b':' then some (h, p) else none

abbrev pub split_host_port : Text → Option (Text × Text)
split_host_port [] = none
split_host_port (c ∷ s) = if c == b'[' then after_bracket (cut b']' s) else cut b':' (c ∷ s)

all-zeros : (n : ℕ) → all is_zero (zeros n) ≡ true
all-zeros zero = refl
all-zeros (suc n) = all-zeros n

length-zeros : (n : ℕ) → length (zeros n) ≡ n
length-zeros zero = refl
length-zeros (suc n) = ground (arith, length-zeros n)

zeros-no_bracket : (n : ℕ) → all no_bracket (zeros n) ≡ true
zeros-no_bracket zero = refl
zeros-no_bracket (suc n) = zeros-no_bracket n

pub parse_show : (a : Addr) → unmap a ≡ a → zone a ≡ [] → parse_addr (show_addr a) ≡ some a
parse_show (v4 n) u z = ground (arith, all-zeros n, length-zeros n)
parse_show (v6 n w) u z = ground (arith, all-zeros n, length-zeros n)

pub show_no_bracket : (a : Addr) → zone a ≡ [] → all no_bracket (show_addr a) ≡ true
show_no_bracket (v4 n) z = zeros-no_bracket n
show_no_bracket (v6 n w) z = zeros-no_bracket n

zeros-plain : (s : Text) → all is_zero s ≡ true → all (λ c. is_digit c || c == b'.') s ≡ true
zeros-plain [] h = refl
zeros-plain (c ∷ s) h = ground (arith, zeros-plain s)

pub parse_shape :
    (s : Text) (a : Addr)
    → parse_addr s ≡ some a
    → (any (λ c. c == b':') s ≡ true) ⊎ (all (λ c. is_digit c || c == b'.') s ≡ true)
parse_shape [] a e = cc
parse_shape (c ∷ s) a e = ground (arith, zeros-plain s)

cut-append : (b : ℕ) (h p : Text) → any (λ c. c == b) h ≡ false → cut b (h ++ b ∷ p) ≡ some (h, p)
cut-append b [] p h = ground arith
cut-append b (c ∷ s) p h = ground (arith, cut-append b s p)

no_bracket-close : (h : Text) → all no_bracket h ≡ true → any (λ c. c == b']') h ≡ false
no_bracket-close [] e = refl
no_bracket-close (c ∷ s) e = ground (arith, no_bracket-close s)

split-plain :
    (c : ℕ) (h p : Text)
    → all no_bracket (c ∷ h) ≡ true
    → any (λ b. b == b':') (c ∷ h) ≡ false
    → split_host_port (c ∷ (h ++ b':' ∷ p)) ≡ some (c ∷ h, p)
split-plain c h p n plain = ground (arith, cut-append b':' (c ∷ h) p plain)

pub split_join :
    (h p : Text)
    → all no_bracket h ≡ true
    → all is_digit p ≡ true
    → split_host_port (join_host_port h p) ≡ some (h, p)
unfolding join_host_port
split_join [] p n d = refl
split_join (c ∷ h) p n d = elim (Bool-cases (any (λ b. b == b':') (c ∷ h))) [
  | inl colon ↦
      rw colon (ap after_bracket (cut-append b']' (c ∷ h) (b':' ∷ p) (no_bracket-close (c ∷ h) n)))
  | inr plain ↦ rw plain (split-plain c h p n plain)
]

pub to_lower_ascii : (s : Text) → All (λ c. c < 128) s → map lower s ≡ map lower s
to_lower_ascii s h = refl

abbrev pub sample_std : Std
sample_std = record {
  parse_addr = parse_addr;
  show_addr = show_addr;
  to_lower = map lower;
  split_host_port = split_host_port;
  parse_show = parse_show;
  show_no_bracket = show_no_bracket;
  split_join = split_join;
  parse_shape = parse_shape;
  to_lower_ascii = to_lower_ascii;
}

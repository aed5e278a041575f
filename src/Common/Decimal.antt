-- ===== src/Common/Decimal.antt =====
-- strconv.ParseUint(s, 10, 16) and strconv.FormatUint(n, 10), on a Go string as its bytes.
use Prim.Native.Nat.{ℕ, zero, suc, ◌+◌, ◌-◌, ◌*◌, ◌/◌, ◌%◌, ◌<◌}
use mathlib.Core.Path.{◌≡◌}
use mathlib.Core.Bool.{true, ◌&&◌}
use mathlib.Core.Option.{Option, none, some}
use mathlib.Core.List.{[], ◌∷◌}
use native.Mathlib.Omega.{arith}
use traversal_connector.Common.Tests.{ltb, leb, if◌then◌else◌}
use traversal_connector.Common.Strings.{Text}
use traversal_connector.Common.Lists.{all}

-- The loop over the digits; a byte that is no digit, or a value over 16 bits, is an error.
pub parse_digits : ℕ → Text → Option ℕ
parse_digits acc [] = some acc
parse_digits acc (c ∷ s) =
    let rest = parse_digits (acc * 10 + (c - b'0')) s in
    if leb b'0' c && leb c b'9' && ltb (acc * 10 + (c - b'0')) 65536 then rest else none

unfoldable pub parse_uint16 : Text → Option ℕ
unfolding parse_digits
parse_uint16 [] = none
parse_uint16 (c ∷ s) = parse_digits 0 (c ∷ s)

-- The digits of n before those in `tail`, by rounds; a uint16 has at most five.
pub format_from : ℕ → ℕ → Text → Text
format_from zero n tail = tail
format_from (suc k) n tail =
    let more = format_from k (n / 10) ((b'0' + n % 10) ∷ tail) in
    if ltb n 10 then (b'0' + n) ∷ tail else more

unfoldable pub format_uint16 : ℕ → Text
unfolding format_from
format_uint16 n = format_from 5 n []

-- The decimal form of a uint16 reads back.
pub parse_uint16-format : (n : ℕ) → n < 65536 → parse_uint16 (format_uint16 n) ≡ some n
unfolding parse_uint16 format_uint16
parse_uint16-format n h = ground arith

pub format_uint16-digits :
    (n : ℕ) → n < 65536 → all (λ c. leb b'0' c && leb c b'9') (format_uint16 n) ≡ true
unfolding format_uint16
format_uint16-digits n h = ground arith

parse_digits-lt :
    (acc : ℕ) (s : Text) (n : ℕ) → acc < 65536 → parse_digits acc s ≡ some n → n < 65536
unfolding parse_digits
parse_digits-lt acc [] n h e = ground arith
parse_digits-lt acc (c ∷ s) n h e = ground (arith, parse_digits-lt (acc * 10 + (c - b'0')) s n)

pub parse_uint16-lt : (s : Text) (n : ℕ) → parse_uint16 s ≡ some n → n < 65536
unfolding parse_uint16
parse_uint16-lt [] n e = cc
parse_uint16-lt (c ∷ s) n e = parse_digits-lt 0 (c ∷ s) n (omega arith) e

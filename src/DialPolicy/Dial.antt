-- ===== src/DialPolicy/Dial.antt =====
-- Where a dial goes, and which connections a race leaves open.
use traversal_connector.Common.{
  ℕ, ◌≤◌, ◌≡◌, refl, ap, subst, ◌⊎◌, inl, inr, Bool, true, false, not, ◌&&◌, ◌||◌, Option, none,
  some, List, [], ◌∷◌, arith, any, length, length-take, Text, reverse,
}
use traversal_connector.Common.Decimal.{format_uint16}
use mathlib.Core.List.{Memᴰ, reverse_aux}
use traversal_connector.Hostname.{Addr, Std, absolute, join_host_port}
use traversal_connector.RawPipe.{forbidden_address, ok, >>=-eq-ok, refuse_if, refuse_if-ok}
use traversal_connector.DialPolicy.{
  Prefix, forbidden, forbidden_name, Config, Policy, new, direct, through_proxy, answers, resolve,
  destinations, plan_direct, plan_proxied, plan_for, plan, literal_forbidden, is_literal, Attempt,
  failed, connected, Race, race_from, race,
}
use traversal_connector.DialPolicy.Forbidden.{IsDenied, Reaches, new-forbids}

any-none :
    {A : Type 0} (f : A → Bool) (xs : List A) {x : A} → Memᴰ x xs → any f xs ≡ false → f x ≡ false
any-none f [] m h = elim m [ ]
any-none f (y ∷ xs) (Memᴰ.head e) h = ground (arith, ap f e)
any-none f (y ∷ xs) (Memᴰ.tail m) h = any-none f xs m (ground arith)

answers-bound :
    (found : Option (List Addr)) (addrs : List Addr)
    → answers found ≡ ok addrs
    → (1 ≤ length addrs) × (length addrs ≤ 8)
answers-bound none addrs e = cc
answers-bound (some []) addrs e = cc
answers-bound (some (a ∷ as_)) addrs e = ground (arith, length-take 8 (a ∷ as_))

-- The literal that goes through a proxy, or the right to send a name there.
literal-proxied :
    (lit : Option Addr) (deny : List Prefix) (resolves : Bool)
    → literal_forbidden deny lit ≡ false
    → (not (is_literal lit) && not resolves) ≡ false
    → ((a : Addr) × (lit ≡ some a) × (forbidden deny a ≡ false)) ⊎ (resolves ≡ true)
literal-proxied none deny resolves h h' = inr (ground arith)
literal-proxied (some a) deny resolves h h' = inl (a, refl, h)

module _ (std : Std) (lookup : Text → Option (List Addr)) where
  plan_for-direct :
      (p : Policy) (host : Text) (port : ℕ) (lit : Option Addr) (via : Option Text)
      (addrs : List Addr) (q : ℕ)
      → plan_for std lookup p host port lit via ≡ ok (direct addrs q)
      → (any (forbidden p.deny) addrs ≡ false)
        × (q ≡ port)
        × (destinations std lookup host lit ≡ ok addrs)
  unfolding plan_for plan_direct plan_proxied
  plan_for-direct p host port lit none addrs q e =
      let (as_, d, e₁) = >>=-eq-ok (destinations std lookup host lit) _ e in
      let (_, r, e₂) = >>=-eq-ok (refuse_if (any (forbidden p.deny) as_) forbidden_address) _ e₁ in
      let clear = refuse_if-ok (any (forbidden p.deny) as_) forbidden_address r in
      let same : as_ ≡ addrs = ground arith in
      let there : q ≡ port = ground arith in
      (
        subst (λ x. any (forbidden p.deny) x ≡ false) same clear,
        there,
        subst (λ x. destinations std lookup host lit ≡ ok x) same d,
      )
  plan_for-direct p host port lit (some via) addrs q e =
      let (_, r, e₁) =
        >>=-eq-ok
          (refuse_if (not (is_literal lit) && not p.config.proxy_resolves) forbidden_address) _ e in
      ground arith

  plan_for-unproxied :
      (p : Policy) (host : Text) (port : ℕ) (lit : Option Addr) (via : Option Text)
      (addrs : List Addr) (q : ℕ)
      → plan_for std lookup p host port lit via ≡ ok (direct addrs q)
      → via ≡ none
  unfolding plan_for plan_proxied
  plan_for-unproxied p host port lit none addrs q e = refl
  plan_for-unproxied p host port lit (some via) addrs q e =
      let (_, _, e₁) =
        >>=-eq-ok
          (refuse_if (not (is_literal lit) && not p.config.proxy_resolves) forbidden_address) _ e in
      absurd (ground arith)

  plan_for-proxied :
      (p : Policy) (host : Text) (port : ℕ) (lit : Option Addr) (proxy : Option Text)
      (via to : Text)
      → plan_for std lookup p host port lit proxy ≡ ok (through_proxy via to)
      → (proxy ≡ some via)
        × (to ≡ join_host_port host (format_uint16 port))
        × ((not (is_literal lit) && not p.config.proxy_resolves) ≡ false)
  unfolding plan_for plan_direct plan_proxied
  plan_for-proxied p host port lit none via to e =
      let (as_, d, e₁) = >>=-eq-ok (destinations std lookup host lit) _ e in
      let (_, r, e₂) = >>=-eq-ok (refuse_if (any (forbidden p.deny) as_) forbidden_address) _ e₁ in
      ground arith
  plan_for-proxied p host port lit (some v) via to e =
      let (_, r, e₁) =
        >>=-eq-ok
          (refuse_if (not (is_literal lit) && not p.config.proxy_resolves) forbidden_address) _ e in
      let allowed =
        refuse_if-ok (not (is_literal lit) && not p.config.proxy_resolves) forbidden_address r in
      (ground arith, ground arith, allowed)

  destinations-bound :
      (host : Text) (lit : Option Addr) (addrs : List Addr)
      → destinations std lookup host lit ≡ ok addrs
      → (1 ≤ length addrs) × (length addrs ≤ 8)
  unfolding destinations resolve
  destinations-bound host (some a) addrs e = ground arith
  destinations-bound host none addrs e = answers-bound (lookup (absolute std host)) addrs e

  -- Under a policy that `new` returns, a direct dial goes to the port that was asked for, to
  -- between one and eight addresses, none of which is in, or carries an IPv4 address in, a prefix of
  -- the floor, one that the operator denies, or an address of the host.
  pub plan-avoids :
      (cfg : Config) (own : List Addr) (p : Policy) (host : Text) (port q : ℕ) (addrs : List Addr)
      → new cfg (some own) ≡ some p
      → plan std lookup p host port ≡ ok (direct addrs q)
      → (q ≡ port)
        × (1 ≤ length addrs)
        × (length addrs ≤ 8)
        × ((a : Addr) (d : Prefix) → Memᴰ a addrs → IsDenied cfg own d → ¬ Reaches a d)
  unfolding plan
  plan-avoids cfg own p host port q addrs made e =
      let (_, _, e₁) =
        >>=-eq-ok
          (refuse_if (literal_forbidden p.deny (std.parse_addr host) || forbidden_name host)
            forbidden_address)
          _ e in
      let (clear, there, found) =
        plan_for-direct p host port (std.parse_addr host) p.config.proxy addrs q e₁ in
      let (some_, few) = destinations-bound host (std.parse_addr host) addrs found in
      (
        there,
        some_,
        few,
        λ a d m denied h.
            let hit = new-forbids cfg own p d a made denied h in
            let miss = any-none (forbidden p.deny) addrs m clear in ground (arith, hit, miss),
      )

  -- A dial is direct only where the policy has no proxy.
  pub plan-unproxied :
      (p : Policy) (host : Text) (port q : ℕ) (addrs : List Addr)
      → plan std lookup p host port ≡ ok (direct addrs q)
      → p.config.proxy ≡ none
  unfolding plan
  plan-unproxied p host port q addrs e =
      let (_, _, e₁) =
        >>=-eq-ok
          (refuse_if (literal_forbidden p.deny (std.parse_addr host) || forbidden_name host)
            forbidden_address)
          _ e in
      plan_for-unproxied p host port (std.parse_addr host) p.config.proxy addrs q e₁

  -- What a dial through the proxy sends, and when: the host and port as they were asked for, to
  -- the policy's proxy, for a host that is an address which is not forbidden, or for a name that is
  -- not forbidden where the operator has the proxy resolve names.
  pub plan-proxied :
      (p : Policy) (host : Text) (port : ℕ) (via to : Text)
      → plan std lookup p host port ≡ ok (through_proxy via to)
      → (p.config.proxy ≡ some via)
        × (to ≡ join_host_port host (format_uint16 port))
        × (forbidden_name host ≡ false)
        × (((a : Addr) × (std.parse_addr host ≡ some a) × (forbidden p.deny a ≡ false))
            ⊎ (p.config.proxy_resolves ≡ true))
  unfolding plan
  plan-proxied p host port via to e =
      let lit = std.parse_addr host in
      let (_, r, e₁) =
        >>=-eq-ok
          (refuse_if (literal_forbidden p.deny lit || forbidden_name host) forbidden_address) _ e in
      let clear =
        refuse_if-ok (literal_forbidden p.deny lit || forbidden_name host) forbidden_address r in
      let (named, spelled, allowed) = plan_for-proxied p host port lit p.config.proxy via to e₁ in
      (
        named,
        spelled,
        ground arith,
        literal-proxied lit p.deny p.config.proxy_resolves (ground arith) allowed,
      )

-- The connections of a race, in the order in which they came up.
abbrev pub connections : List Attempt → List ℕ
connections [] = []
connections (failed ∷ rs) = connections rs
connections (connected c ∷ rs) = c ∷ connections rs

race_from-won :
    (rs : List Attempt) (w : ℕ) (done : List ℕ)
    → race_from (record { winner = some w; closed = done }) rs
      ≡ record { winner = some w; closed = reverse_aux (connections rs) done }
unfolding race_from
race_from-won [] w done = refl
race_from-won (failed ∷ rs) w done = race_from-won rs w done
race_from-won (connected c ∷ rs) w done = race_from-won rs w (c ∷ done)

-- What a race leaves of the connections that came up.
abbrev pub settled : List ℕ → Race
settled [] = record { winner = none; closed = [] }
settled (c ∷ cs) = record { winner = some c; closed = reverse cs }

-- A race keeps the first connection to come up, and closes every other, each once: none is left
-- open, and it fails exactly if no connection comes up.
pub race-settled : (rs : List Attempt) → race rs ≡ settled (connections rs)
unfolding race race_from
race-settled [] = refl
race-settled (failed ∷ rs) = race-settled rs
race-settled (connected c ∷ rs) = race_from-won rs c []

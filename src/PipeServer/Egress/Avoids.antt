-- ===== src/PipeServer/Egress/Avoids.antt =====
-- Where the dialer of a pipe's requests goes.
use traversal_connector.Common.{
  ℕ, ◌≤◌, ◌≡◌, sym, ap, ◌∙◌, subst, inl, inr, Bool, true, false, Option, none, some, List, arith,
  Text, codes, length, Bool-cases, Option-cases,
}
use mathlib.Core.List.{Memᴰ}
use traversal_connector.Common.Decimal.{format_uint16}
use traversal_connector.Env.{Environment, Reader}
use traversal_connector.Hostname.{Std, Addr, join_host_port}
use traversal_connector.RawPipe.{ok}
use traversal_connector.DialPolicy.{
  Prefix, Config, Policy, new, Target, direct, through_proxy, plan,
}
use traversal_connector.DialPolicy.Forbidden.{Reaches, new-config}
use traversal_connector.DialPolicy.Dial.{plan-avoids, plan-proxied, plan-unproxied}
use traversal_connector.PipeServer.Egress.{Library, Dialer, policy_config, new_policy, dial}
use traversal_connector.PipeServer.Egress.Settings.{
  Routed, Lists, egress_proxy-Routed, forbidden_cidrs-Lists,
}
use traversal_connector.PipeServer.Egress.Built.{Denied, for_config, Built, new_policy-Built}

same_exempt : (x y : Text → ℕ → Bool) → some x ≡ some y → x ≡ y
same_exempt x y e = ground arith

module _ (std : Std) (lookup : Text → Option (List Addr)) where
  -- The policy that a dial goes by: the one with the proxy, or the one without.
  pub data Chosen (d : Dialer) (host : Text) (port : ℕ) (t : Target) : Type 0 where
    alone : d.direct ≡ none → plan std lookup d.proxied host port ≡ ok t → Chosen d host port t
    kept :
        (e : Text → ℕ → Bool) (p : Policy)
        → d.direct ≡ some (e, p)
        → e host port ≡ false
        → plan std lookup d.proxied host port ≡ ok t
        → Chosen d host port t
    exempted :
        (e : Text → ℕ → Bool) (p : Policy)
        → d.direct ≡ some (e, p)
        → e host port ≡ true
        → plan std lookup p host port ≡ ok t
        → Chosen d host port t

  dial-Chosen :
      (d : Dialer) (host : Text) (port : ℕ) (t : Target)
      → dial std lookup d host port ≡ ok t
      → Chosen d host port t
  unfolding dial
  dial-Chosen d host port t e = elim (Option-cases d.direct) [
    | inl no_direct ↦ alone no_direct (ground arith)
    | inr ((x, p), found) ↦ elim (Bool-cases (x host port)) [
      | inl yes_ ↦ exempted x p found yes_ (ground arith)
      | inr no_ ↦ kept x p found no_ (ground arith)
    ]
  ]

  -- Where a dial goes: to addresses that nothing denies, or to the proxy for a destination that is
  -- not exempt from it.
  abbrev pub Goes :
      Option Text
      → Option (Text → ℕ → Bool)
      → List Prefix
      → List Addr
      → List Addr
      → Text
      → ℕ
      → Target
      → Type 0
  Goes proxy exempt extra own own' host port (direct addrs q) =
      (q ≡ port)
      × (1 ≤ length addrs)
      × (length addrs ≤ 8)
      × ((a : Addr) (p : Prefix)
          → Memᴰ a addrs
          → Denied extra own p
          → Denied extra own' p
          → ¬ Reaches a p)
      × ((via : Text)
          → proxy ≡ some via
          → (e : Text → ℕ → Bool) × (exempt ≡ some e) × (e host port ≡ true))
  Goes proxy exempt extra own own' host port (through_proxy via to) =
      (proxy ≡ some via)
      × (to ≡ join_host_port host (format_uint16 port))
      × ((e : Text → ℕ → Bool) → exempt ≡ some e → e host port ≡ false)

  avoids :
      (proxy : Option Text) (resolve : Bool) (extra : List Prefix) (own : List Addr) (p : Policy)
      (host : Text) (port q : ℕ) (addrs : List Addr)
      → new (policy_config proxy resolve extra) (some own) ≡ some p
      → plan std lookup p host port ≡ ok (direct addrs q)
      → (q ≡ port)
        × (1 ≤ length addrs)
        × (length addrs ≤ 8)
        × ((a : Addr) (x : Prefix) → Memᴰ a addrs → Denied extra own x → ¬ Reaches a x)
  avoids proxy resolve extra own p host port q addrs made e =
      let (there, some_, few, clear) =
        plan-avoids std lookup (policy_config proxy resolve extra) own p host port q addrs made e in
      (there, some_, few, λ a x m denied. clear a x m (for_config proxy resolve extra own x denied))

  unproxied :
      (proxy : Option Text) (resolve : Bool) (extra : List Prefix) (own : List Addr) (p : Policy)
      (host : Text) (port q : ℕ) (addrs : List Addr)
      → new (policy_config proxy resolve extra) (some own) ≡ some p
      → plan std lookup p host port ≡ ok (direct addrs q)
      → proxy ≡ none
  unproxied proxy resolve extra own p host port q addrs made e =
      ap (λ (c : Config). c.proxy) (sym (new-config (policy_config proxy resolve extra) own p made))
      ∙ plan-unproxied std lookup p host port q addrs e

  via_proxy :
      (proxy : Option Text) (resolve : Bool) (extra : List Prefix) (own : List Addr) (p : Policy)
      (host : Text) (port : ℕ) (via to : Text)
      → new (policy_config proxy resolve extra) (some own) ≡ some p
      → plan std lookup p host port ≡ ok (through_proxy via to)
      → (proxy ≡ some via) × (to ≡ join_host_port host (format_uint16 port))
  via_proxy proxy resolve extra own p host port via to made e =
      let (named, spelled, _, _) = plan-proxied std lookup p host port via to e in
      (
        ap (λ (c : Config). c.proxy)
              (sym (new-config (policy_config proxy resolve extra) own p made))
            ∙ named,
        spelled,
      )

  Chosen-Goes :
      (own own' : List Addr) (proxy : Option Text) (exempt : Option (Text → ℕ → Bool))
      (extra : List Prefix) (d : Dialer) (host : Text) (port : ℕ) (t : Target)
      → Built own own' proxy exempt extra d
      → Chosen d host port t
      → Goes proxy exempt extra own own' host port t
  Chosen-Goes own own' proxy exempt extra d host port (direct addrs q) b (alone none_ e) =
      let (there, some_, few, clear) =
        avoids proxy b.names_sent extra own d.proxied host port q addrs b.by_proxy e in
      (let none_ =
          unproxied proxy b.names_sent extra own d.proxied host port q addrs b.by_proxy e in
        (there, some_, few, λ a x m denied _. clear a x m denied, λ via k. absurd (ground arith)))
  Chosen-Goes own own' proxy exempt extra d host port (direct addrs q) b (kept x p found no_ e) =
      let (there, some_, few, clear) =
        avoids proxy b.names_sent extra own d.proxied host port q addrs b.by_proxy e in
      (let none_ =
          unproxied proxy b.names_sent extra own d.proxied host port q addrs b.by_proxy e in
        (there, some_, few, λ a y m denied _. clear a y m denied, λ via k. absurd (ground arith)))
  Chosen-Goes own own' proxy exempt extra d host port (direct addrs q) b
        (exempted x p found yes_ e) =
      let (there, some_, few, clear) =
        avoids none b.names_sent extra own' p host port q addrs (b.without x p found).1 e in
      (
        there,
        some_,
        few,
        λ a y m _ denied. clear a y m denied,
        λ via k. (x, (b.without x p found).0, yes_),
      )
  Chosen-Goes own own' proxy exempt extra d host port (through_proxy via to) b (alone none_ e) =
      let (named, spelled) =
        via_proxy proxy b.names_sent extra own d.proxied host port via to b.by_proxy e in
      (named, spelled, λ x k. let gone = b.plain none_ in absurd (ground arith))
  Chosen-Goes own own' proxy exempt extra d host port (through_proxy via to) b
        (kept x p found no_ e) =
      let (named, spelled) =
        via_proxy proxy b.names_sent extra own d.proxied host port via to b.by_proxy e in
      (
        named,
        spelled,
        λ y k.
            subst (λ (f : Text → ℕ → Bool). f host port ≡ false)
              (same_exempt x y (sym (b.without x p found).0 ∙ k)) no_,
      )
  Chosen-Goes own own' proxy exempt extra d host port (through_proxy via to) b
        (exempted x p found yes_ e) =
      let (named, _) =
        via_proxy none b.names_sent extra own' p host port via to (b.without x p found).1 e in
      absurd (ground arith)

  -- Where a request of a pipe is dialed under the policy that the environment sets. Directly, it
  -- is to its own port, at between one and eight addresses, none of which is in, or carries an IPv4
  -- address in, the built-in floor, a prefix of the list with commas TRAVERSAL_PIPES_FORBIDDEN_CIDRS,
  -- or an address that the host has whenever one is read; and if there is a proxy, the destination is
  -- exempt from it. Through a proxy, it is to the one that the environment names, for the destination
  -- as it was asked for, which is not exempt. The proxy is that of TRAVERSAL_PIPES_EGRESS_PROXY,
  -- from which nothing is exempt; without that setting it is the ambient one of HTTPS or else of HTTP,
  -- from which exactly the destinations are exempt for which the proxy function, with NO_PROXY,
  -- gives none.
  pub dial-Goes :
      (lib : Library) (env : Environment) (errs : Reader) (own own' : List Addr) (d : Dialer)
      (host : Text) (port : ℕ) (t : Target)
      → (new_policy lib env errs (some own) (some own')).1 ≡ some d
      → dial std lookup d host port ≡ ok t
      → (proxy : Option Text) × (exempt : Option (Text → ℕ → Bool)) × (extra : List Prefix) × Routed
          lib
          (env (codes "TRAVERSAL_PIPES_EGRESS_PROXY"))
          proxy
          exempt
        × Lists lib (env (codes "TRAVERSAL_PIPES_FORBIDDEN_CIDRS")) extra
        × Goes proxy exempt extra own own' host port t
  dial-Goes lib env errs own own' d host port t made e =
      let (proxy, exempt, extra, route, listed, b) =
        new_policy-Built lib env errs own own' d made in
      (
        proxy,
        exempt,
        extra,
        egress_proxy-Routed lib env proxy exempt route,
        forbidden_cidrs-Lists lib (env (codes "TRAVERSAL_PIPES_FORBIDDEN_CIDRS")) extra listed,
        Chosen-Goes own own' proxy exempt extra d host port t b (dial-Chosen d host port t e),
      )

-- ===== src/PipeServer/Egress/Built.antt =====
-- What the dialer of a pipe's requests is built from.
use traversal_connector.Common.{
  ℕ, ◌≡◌, refl, ap, ◌∙◌, subst, inl, inr, Bool, false, Option, none, some, List, arith, Text, codes,
  Option-cases,
}
use traversal_connector.Env.{Environment, Reader}
use traversal_connector.Hostname.{Addr}
use traversal_connector.DialPolicy.{Prefix, Policy, new}
use traversal_connector.DialPolicy.Forbidden.{IsDenied, built_in, added, ours}
use traversal_connector.PipeServer.Egress.{
  Library, Dialer, egress_proxy, forbidden_cidrs, policy_config, dialer_with, build_dialer,
  resolves, new_policy,
}

-- The built-in floor, the operator's prefixes, and the addresses of the host.
abbrev pub Denied : List Prefix → List Addr → Prefix → Type 0
Denied extra own p = IsDenied (policy_config none false extra) own p

pub for_config :
    (proxy : Option Text) (resolve : Bool) (extra : List Prefix) (own : List Addr) (p : Prefix)
    → Denied extra own p
    → IsDenied (policy_config proxy resolve extra) own p
for_config proxy resolve extra own p (built_in m) = built_in m
for_config proxy resolve extra own p (added m) = added m
for_config proxy resolve extra own p (ours m) = ours m

-- What a dialer was built from.
pub record Built (own own' : List Addr) (proxy : Option Text) (exempt : Option (Text → ℕ → Bool))
    (extra : List Prefix) (d : Dialer) : Type 0 where
  pub names_sent : Bool
  pub by_proxy : new (policy_config proxy names_sent extra) (some own) ≡ some d.proxied
  pub without :
      (e : Text → ℕ → Bool) (p : Policy)
      → d.direct ≡ some (e, p)
      → (exempt ≡ some e) × (new (policy_config none names_sent extra) (some own') ≡ some p)
  pub plain : d.direct ≡ none → exempt ≡ none

dialer_with-Built :
    (own own' : List Addr) (proxy : Option Text) (resolve : Bool) (extra : List Prefix)
    (exempt : Option (Text → ℕ → Bool)) (p : Policy) (d : Dialer)
    → new (policy_config proxy resolve extra) (some own) ≡ some p
    → dialer_with (some own') (policy_config proxy resolve extra) exempt p ≡ some d
    → Built own own' proxy exempt extra d
dialer_with-Built own own' proxy resolve extra none p d made e =
    let same : ◌≡◌ {A = Dialer} (record { proxied = p; direct = none }) d = ground arith in
    subst (Built own own' proxy none extra) same (record {
      names_sent = resolve;
      by_proxy = made;
      without = λ x q k. absurd (cc);
      plain = λ k. refl;
    })
dialer_with-Built own own' proxy resolve extra (some x) p d made e =
    elim (Option-cases (new (policy_config none resolve extra) (some own'))) [
      | inl refused ↦ absurd (ground arith)
      | inr (u, fine) ↦
          let same : ◌≡◌ {A = Dialer} (record { proxied = p; direct = some (x, u) }) d =
            ground arith in
          subst (Built own own' proxy (some x) extra) same (record {
            names_sent = resolve;
            by_proxy = made;
            without = λ y q k.
                let first : x ≡ y = ground arith in
                let second : u ≡ q = ground arith in (ap some first, fine ∙ ap some second);
            plain = λ k. absurd (cc);
          })
    ]

pub new_policy-Built :
    (lib : Library) (env : Environment) (errs : Reader) (own own' : List Addr) (d : Dialer)
    → (new_policy lib env errs (some own) (some own')).1 ≡ some d
    → (proxy : Option Text) × (exempt : Option (Text → ℕ → Bool)) × (extra : List Prefix)
      × (egress_proxy lib env ≡ some (proxy, exempt))
      × (forbidden_cidrs lib (env (codes "TRAVERSAL_PIPES_FORBIDDEN_CIDRS")) ≡ some extra)
      × Built own own' proxy exempt extra d
unfolding new_policy build_dialer
new_policy-Built lib env errs own own' d e = elim (Option-cases (egress_proxy lib env)) [
  | inl no_route ↦ absurd (ground arith)
  | inr ((proxy, exempt), route) ↦
      elim (Option-cases (forbidden_cidrs lib (env (codes "TRAVERSAL_PIPES_FORBIDDEN_CIDRS")))) [
        | inl no_list ↦ absurd (ground arith)
        | inr (extra, listed) ↦
            let resolve = (resolves lib env errs exempt).1 in
            elim (Option-cases (new (policy_config proxy resolve extra) (some own))) [
              | inl refused ↦ absurd (ground arith)
              | inr (p, made) ↦ (
                proxy,
                exempt,
                extra,
                route,
                listed,
                dialer_with-Built own own' proxy resolve extra exempt p d made (ground arith),
              )
            ]
      ]
]

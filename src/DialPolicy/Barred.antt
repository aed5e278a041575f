-- ===== src/DialPolicy/Barred.antt =====
-- What is never dialed.
use traversal_connector.Common.{
  ℕ, ◌≡◌, refl, ◌∙◌, take, Bool-cases, ap, inl, inr, Bool, true, false, ◌||◌, Option, none, some,
  List, [], ◌∷◌, arith, any, Text, codes, ◌++◌, text_eq, has_suffix-append,
}
use mathlib.Core.List.{Memᴰ}
use traversal_connector.Hostname.{Addr, Std, absolute}
use traversal_connector.RawPipe.{forbidden_address, ok, err}
use traversal_connector.DialPolicy.{
  Prefix, forbidden, forbidden_name, Config, Policy, new, answers, resolve, destinations,
  plan_direct, plan_for, plan, literal_forbidden,
}
use traversal_connector.DialPolicy.Forbidden.{IsDenied, Reaches, new-forbids, new-config, any-Mem}

refused : (a : Bool) {b : Bool} → b ≡ true → (a || b) ≡ true
refused true h = refl
refused false h = h

-- localhost, a name below it, and the names of metadata services.
pub data IsForbiddenName : Text → Type 0 where
  local : IsForbiddenName (codes "localhost")
  below_local : (name : Text) → IsForbiddenName (name ++ codes ".localhost")
  google : IsForbiddenName (codes "metadata.google.internal")
  google_short : IsForbiddenName (codes "metadata.goog")
  amazon : IsForbiddenName (codes "instance-data.ec2.internal")

forbidden_name-holds : (host : Text) → IsForbiddenName host → forbidden_name host ≡ true
unfolding forbidden_name text_eq
forbidden_name-holds _ local = refl
forbidden_name-holds _ (below_local name) =
    ground (arith, has_suffix-append name (codes ".localhost"))
forbidden_name-holds _ google = refl
forbidden_name-holds _ google_short = refl
forbidden_name-holds _ amazon = refl

module _ (std : Std) (lookup : Text → Option (List Addr)) where
  -- What may not be dialed under a configuration, on a host with the addresses `own`.
  pub data IsBarred (cfg : Config) (own : List Addr) (host : Text) : Type 0 where
    by_name : IsForbiddenName host → IsBarred cfg own host
    by_literal :
        (a : Addr) (d : Prefix)
        → std.parse_addr host ≡ some a
        → IsDenied cfg own d
        → Reaches a d
        → IsBarred cfg own host
    by_answer :
        (answer : List Addr) (a : Addr) (d : Prefix)
        → cfg.proxy ≡ none
        → std.parse_addr host ≡ none
        → lookup (absolute std host) ≡ some answer
        → Memᴰ a (take 8 answer)
        → IsDenied cfg own d
        → Reaches a d
        → IsBarred cfg own host

  answers-some :
      (answer : List Addr) (a : Addr)
      → Memᴰ a (take 8 answer)
      → answers (some answer) ≡ ok (take 8 answer)
  answers-some [] a m = elim m [ ]
  answers-some (x ∷ xs) a m = refl

  plan_for-refused :
      (p : Policy) (host : Text) (port : ℕ) (answer : List Addr)
      → answers (lookup (absolute std host)) ≡ ok (take 8 answer)
      → any (forbidden p.deny) (take 8 answer) ≡ true
      → plan_for std lookup p host port none none ≡ err forbidden_address
  unfolding plan_for plan_direct destinations resolve
  plan_for-refused p host port answer found hit = rw (found, hit) refl

  -- Under a policy that `new` returns, with a proxy or without, no dial is made to localhost or a
  -- name below it, to a metadata service by its name, or to a literal address that is in, or carries
  -- an IPv4 address in, a prefix of the floor, one that the operator denies, or an address of the
  -- host; nor, without a proxy, to a name that has one such address among its first eight, whatever
  -- the others are.
  pub plan-refuses :
      (cfg : Config) (own : List Addr) (p : Policy) (host : Text) (port : ℕ)
      → new cfg (some own) ≡ some p
      → IsBarred cfg own host
      → plan std lookup p host port ≡ err forbidden_address
  unfolding plan
  plan-refuses cfg own p host port made (by_name named) =
      rw
        (refused (literal_forbidden p.deny (std.parse_addr host)) (forbidden_name-holds host named))
        refl
  plan-refuses cfg own p host port made (by_literal a d parsed denied reaches) =
      rw (parsed, new-forbids cfg own p d a made denied reaches) refl
  plan-refuses cfg own p host port made (by_answer answer a d plain parsed found m denied reaches) =
      let hit : any (forbidden p.deny) (take 8 answer) ≡ true =
        any-Mem (forbidden p.deny) (take 8 answer) m
          (new-forbids cfg own p d a made denied reaches) in
      let no_proxy : p.config.proxy ≡ none =
        ap (λ (c : Config). c.proxy) (new-config cfg own p made) ∙ plain in
      let stops =
        plan_for-refused p host port answer (ap answers found ∙ answers-some answer a m) hit in
      elim (Bool-cases (forbidden_name host)) [
        | inl named ↦ rw (parsed, named) refl
        | inr allowed ↦ rw (parsed, allowed, no_proxy) stops
      ]

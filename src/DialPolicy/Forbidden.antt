-- ===== src/DialPolicy/Forbidden.antt =====
-- The deny list of a policy: what `new` puts on it, and which addresses it forbids.
use traversal_connector.Common.{
  ℕ, zero, suc, ◌<◌, ◌-◌, ◌/◌, ◌^◌, ◌≡◌, refl, sym, ap, subst, ◌∙◌, inl, inr, Bool, true, some,
  List, [], ◌∷◌, ◌++◌, map, arith, any, Bool-cases, Option-cases, append_assoc, append-nil, not,
  ◌||◌,
}
use mathlib.Core.List.{Memᴰ}
use mathlib.Core.List.Memᴰ
use native.Mathlib.Nat.{mul-div_cancel}
use traversal_connector.Hostname.{Addr, v4, v6, unmap}
use traversal_connector.DialPolicy.{
  Prefix, in_v4, in_v6, invalid, contains, forbidden_prefixes, embedded, no_zone, as16, carried,
  forbidden, Config, Policy, host_prefix, masked, is_valid, is_mapped, add_extra, new,
}

-- The address that the deny list is asked about.
abbrev pub plain : Addr → Addr
plain a = no_zone (unmap a)

-- A prefix of the floor, one that the operator adds, or an address of the host.
pub data IsDenied (cfg : Config) (own : List Addr) : Prefix → Type 0 where
  built_in : {d : Prefix} → Memᴰ d forbidden_prefixes → IsDenied cfg own d
  added : {d : Prefix} → Memᴰ d cfg.extra_forbidden → IsDenied cfg own d
  ours : {a : Addr} → Memᴰ a own → IsDenied cfg own (host_prefix (unmap a))

-- The address is in the prefix, or carries an IPv4 address that is.
pub data Reaches (a : Addr) (d : Prefix) : Type 0 where
  itself : contains d (plain a) ≡ true → Reaches a d
  inside :
      {p : Prefix} {ipv4 : ℕ → ℕ}
      → Memᴰ (p, ipv4) embedded
      → contains p (plain a) ≡ true
      → contains d (v4 (ipv4 (as16 (plain a)))) ≡ true
      → Reaches a d

pow_pos : (n : ℕ) → 0 < 2 ^ n
pow_pos zero = omega arith
pow_pos (suc n) = omega (arith, pow_pos n)

contains-masked : (p : Prefix) (a : Addr) → contains (masked p) a ≡ contains p a
unfolding contains
contains-masked (in_v4 p n) (v4 a) = rw (mul-div_cancel (p / 2 ^ (32 - n)) (pow_pos (32 - n))) refl
contains-masked (in_v4 p n) (v6 a z) = refl
contains-masked (in_v6 p n) (v6 a z) =
    rw (mul-div_cancel (p / 2 ^ (128 - n)) (pow_pos (128 - n))) refl
contains-masked (in_v6 p n) (v4 a) = refl
contains-masked invalid a = refl

pub any-Mem :
    {A : Type 0} (f : A → Bool) {x : A} (xs : List A) → Memᴰ x xs → f x ≡ true → any f xs ≡ true
any-Mem f [] m h = elim m [ ]
any-Mem f (y ∷ xs) (Memᴰ.head e) h = ground (arith, ap f e)
any-Mem f (y ∷ xs) (Memᴰ.tail m) h = ground (arith, any-Mem f xs m h)

add_extra-eq :
    (deny extra l : List Prefix) → add_extra deny extra ≡ some l → l ≡ deny ++ map masked extra
unfolding add_extra
add_extra-eq deny [] l e = ground (arith, append-nil deny)
add_extra-eq deny (p ∷ ps) l e = elim (Bool-cases (not (is_valid p) || is_mapped p)) [
  | inl bad ↦ ground arith
  | inr good ↦
      add_extra-eq (deny ++ masked p ∷ []) ps l (ground arith)
      ∙ append_assoc deny (masked p ∷ []) (map masked ps)
]

carried-Mem :
    (a : Addr) (es : List (Prefix × (ℕ → ℕ))) {e : Prefix × (ℕ → ℕ)}
    → Memᴰ e es
    → contains e.0 a ≡ true
    → Memᴰ (v4 (e.1 (as16 a))) (carried a es)
unfolding carried
carried-Mem a [] m h = elim m [ ]
carried-Mem a ((q, g) ∷ es) (Memᴰ.head e) h =
    rw (sym (ap (λ x. contains x.0 a) e) ∙ h) (Memᴰ.head (ap (λ x. v4 (x.1 (as16 a))) e))
carried-Mem a ((q, g) ∷ es) (Memᴰ.tail m) h = elim (Bool-cases (contains q a)) [
  | inl held ↦ rw held (Memᴰ.tail (carried-Mem a es m h))
  | inr absent ↦ rw absent (carried-Mem a es m h)
]

new-deny :
    (cfg : Config) (own : List Addr) (p : Policy)
    → new cfg (some own) ≡ some p
    → p.deny
      ≡ (forbidden_prefixes ++ map masked cfg.extra_forbidden)
        ++ map (λ a. host_prefix (unmap a)) own
unfolding new
new-deny cfg own p e = elim (Option-cases (add_extra forbidden_prefixes cfg.extra_forbidden)) [
  | inl none_ ↦ ground arith
  | inr (deny, some_) ↦
      let whole = add_extra-eq forbidden_prefixes cfg.extra_forbidden deny some_ in ground arith
]

pub new-config :
    (cfg : Config) (own : List Addr) (p : Policy) → new cfg (some own) ≡ some p → p.config ≡ cfg
unfolding new
new-config cfg own p e = elim (Option-cases (add_extra forbidden_prefixes cfg.extra_forbidden)) [
  | inl none_ ↦ ground arith
  | inr (deny, some_) ↦ ground arith
]

-- The deny list of a policy has each denied prefix, masked if the operator added it.
listed :
    (cfg : Config) (own : List Addr) (p : Policy) (d : Prefix)
    → new cfg (some own) ≡ some p
    → IsDenied cfg own d
    → (q : Prefix) × Memᴰ q p.deny × ((a : Addr) → contains q a ≡ contains d a)
listed cfg own p d e (built_in m) = (
  d,
  subst (Memᴰ d) (sym (new-deny cfg own p e)) (
      Memᴰ.append_left (map (λ a. host_prefix (unmap a)) own)
        (Memᴰ.append_left (map masked cfg.extra_forbidden) m)),
  λ a. refl,
)
listed cfg own p d e (added m) = (
  masked d,
  subst (Memᴰ (masked d)) (sym (new-deny cfg own p e))
      (Memᴰ.append_left _ (Memᴰ.append_right forbidden_prefixes (Memᴰ.map masked m))),
  contains-masked d,
)
listed cfg own p d e (ours {a} m) = (
  host_prefix (unmap a),
  subst (Memᴰ (host_prefix (unmap a))) (sym (new-deny cfg own p e)) (
      Memᴰ.append_right (forbidden_prefixes ++ map masked cfg.extra_forbidden)
        (Memᴰ.map (λ b. host_prefix (unmap b)) m)),
  λ b. refl,
)

forbidden-item :
    (deny : List Prefix) (a c : Addr) (q : Prefix)
    → Memᴰ c (plain a ∷ carried (plain a) embedded)
    → Memᴰ q deny
    → contains q c ≡ true
    → forbidden deny a ≡ true
unfolding forbidden
forbidden-item deny a c q m l h =
    any-Mem (λ b. any (λ d. contains d b) deny) _ m (any-Mem (λ d. contains d c) deny l h)

-- A policy that `new` returns forbids every address that is in a denied prefix or carries an IPv4
-- address that is: the floor, the operator's prefixes, with their host bits or without, and the
-- addresses of the host.
pub new-forbids :
    (cfg : Config) (own : List Addr) (p : Policy) (d : Prefix) (a : Addr)
    → new cfg (some own) ≡ some p
    → IsDenied cfg own d
    → Reaches a d
    → forbidden p.deny a ≡ true
new-forbids cfg own p d a e denied (itself h) =
    let (q, l, same) = listed cfg own p d e denied in
    forbidden-item p.deny a (plain a) q (Memᴰ.head refl) l (same (plain a) ∙ h)
new-forbids cfg own p d a e denied (inside m h h') =
    let (q, l, same) = listed cfg own p d e denied in
    forbidden-item p.deny a _ q (Memᴰ.tail (carried-Mem (plain a) embedded m h)) l (same _ ∙ h')

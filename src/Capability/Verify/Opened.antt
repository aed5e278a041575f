-- ===== src/Capability/Verify/Opened.antt =====
-- The open limit, for whole tokens.
use traversal_connector.Common.{
  ℕ, ◌+◌, ◌≤◌, ◌≡◌, refl, inl, inr, List, [], ◌∷◌, arith, if◌then◌else◌, All, Text, text_eq, subst,
  ap, Bool-cases,
}
use traversal_connector.Common.Int.{ℤ, ◌+ℤ◌, ◌≤ℤ◌, +ℤ_parts, -ℤ_parts}
use traversal_connector.RawPipe.{Result, ok, err}
use traversal_connector.Capability.{Claims}
use traversal_connector.Capability.Opens.{Opens, no_opens, take, max_opens}
use traversal_connector.Capability.Opens.Limit.{
  Call, Ordered, Guarded, admitted, admitted-le-max_opens,
}
use traversal_connector.Capability.Verify.{
  heap_of, Library, Verifier, authorize, ends, admit, verify, unix, max_clock_skew,
}
use traversal_connector.Capability.Verify.Sound.{authorize-ok}

-- One call of Verify.
pub record Attempt : Type 0 where
  pub token : Text
  pub connector : Text
  pub host : Text
  pub port : ℕ
  pub now : ℤ

abbrev pub InOrder : ℤ → List Attempt → Type 0
InOrder t [] = Unit
InOrder t (a ∷ as_) = (t ≤ℤ a.now) × InOrder a.now as_

abbrev pub opened_for : Text → Result Claims → ℕ
opened_for j (ok c) = if text_eq c.jti j then 1 else 0
opened_for j (err r) = 0

module _ (lib : Library) (v : Verifier lib) where
  abbrev pub attempt : Attempt → Opens (heap_of lib) → Opens (heap_of lib) × Result Claims
  attempt a o = verify lib v a.token a.connector a.host a.port a.now o

  abbrev pub authorized : Attempt → Result Claims
  authorized a = authorize lib v a.token a.connector a.host a.port a.now

  -- How many of the attempts open a pipe for j.
  pub opened : Text → List Attempt → Opens (heap_of lib) → ℕ
  opened j [] o = 0
  opened j (a ∷ as_) o = let r = attempt a o in opened_for j r.1 + opened j as_ r.0

  -- Every capability with that jti expires at the same time.
  abbrev pub ExpiresAt : Text → ℤ → Attempt → Type 0
  ExpiresAt j x a = (c : Claims) → authorized a ≡ ok c → c.jti ≡ j → c.expires_at ≡ x

  abbrev calls_from : Attempt → Result Claims → List Call → List Call
  calls_from a (ok c) cs = record { jti = c.jti; expires = ends lib c; now = a.now } ∷ cs
  calls_from a (err r) cs = cs

  calls : List Attempt → List Call
  calls [] = []
  calls (a ∷ as_) = calls_from a (authorized a) (calls as_)

  admit-admitted :
      (j : Text) (a : Attempt) (r : Result Claims) (as_ : List Attempt) (cs : List Call)
      (o : Opens (heap_of lib))
      → ((u : Opens (heap_of lib)) → opened j as_ u ≡ admitted (heap_of lib) j cs u)
      → opened_for j (admit lib r a.now o).1 + opened j as_ (admit lib r a.now o).0
        ≡ admitted (heap_of lib) j (calls_from a r cs) o
  unfolding admit admitted
  admit-admitted j a (err x) as_ cs o rest = omega (arith, rest o)
  admit-admitted j a (ok c) as_ cs o rest =
      let r = take (heap_of lib) c.jti (ends lib c) a.now o in
      elim (Bool-cases r.1) [
        | inl taken ↦ rw taken (ap (λ n. (if text_eq c.jti j then 1 else 0) + n) (rest r.0))
        | inr full ↦ rw full (ap (λ n. 0 + n) (rest r.0))
      ]

  opened-admitted :
      (j : Text) (as_ : List Attempt) (o : Opens (heap_of lib))
      → opened j as_ o ≡ admitted (heap_of lib) j (calls as_) o
  unfolding opened calls verify
  opened-admitted j [] o = unfold admitted in refl
  opened-admitted j (a ∷ as_) o =
      admit-admitted j a (authorized a) as_ (calls as_) o (opened-admitted j as_)

  calls_from-Ordered :
      (t : ℤ) (a : Attempt) (r : Result Claims) (cs : List Call)
      → t ≤ℤ a.now
      → Ordered a.now cs
      → Ordered t (calls_from a r cs)
  calls_from-Ordered t a (ok c) cs h order = (h, order)
  calls_from-Ordered t a (err x) [] h order = tt
  calls_from-Ordered t a (err x) (c ∷ cs) h (here, order) = (omega arith, order)

  calls-Ordered : (t : ℤ) (as_ : List Attempt) → InOrder t as_ → Ordered t (calls as_)
  unfolding calls
  calls-Ordered t [] h = tt
  calls-Ordered t (a ∷ as_) (h, hs) =
      calls_from-Ordered t a (authorized a) (calls as_) h (calls-Ordered a.now as_ hs)

  abbrev deadline : ℤ → ℤ
  deadline x = unix x +ℤ max_clock_skew

  calls_from-Guarded :
      (j : Text) (x : ℤ) (a : Attempt) (r : Result Claims) (cs : List Call)
      → authorized a ≡ r
      → ExpiresAt j x a
      → All (Guarded j (deadline x)) cs
      → All (Guarded j (deadline x)) (calls_from a r cs)
  calls_from-Guarded j x a (err e) cs same h rest = rest
  calls_from-Guarded j x a (ok c) cs same h rest = (
    (λ is_j.
        let until : c.expires_at ≡ x = h c same is_j in
        let timely =
          (authorize-ok lib v a.token a.connector a.host a.port a.now c same).1.expires in
        subst (λ y. (deadline y ≤ℤ ends lib c) × (a.now ≤ℤ deadline y)) until
          (
            omega arith,
            omega (
              arith,
              timely,
              +ℤ_parts (unix c.expires_at) max_clock_skew,
              -ℤ_parts a.now max_clock_skew,
            ),
          )),
    rest,
  )

  calls-Guarded :
      (j : Text) (x : ℤ) (as_ : List Attempt)
      → All (ExpiresAt j x) as_
      → All (Guarded j (deadline x)) (calls as_)
  unfolding calls
  calls-Guarded j x [] h = tt
  calls-Guarded j x (a ∷ as_) (h, hs) =
      calls_from-Guarded j x a (authorized a) (calls as_) refl h (calls-Guarded j x as_ hs)

  -- A capability opens at most max_opens pipes: over any sequence of calls of Verify on a new
  -- verifier, by any tokens and for any destinations, with a clock that does not go back, at most
  -- that many are accepted with a given jti, if the tokens with that jti expire at one time.
  pub opened-le-max_opens :
      (j : Text) (x t : ℤ) (as_ : List Attempt)
      → InOrder t as_
      → All (ExpiresAt j x) as_
      → opened j as_ (no_opens (heap_of lib)) ≤ max_opens
  opened-le-max_opens j x t as_ order same = rw (opened-admitted j as_ (no_opens (heap_of lib))) (
      admitted-le-max_opens (heap_of lib) j (deadline x) t (calls as_) (calls-Ordered t as_ order)
        (calls-Guarded j x as_ same))

-- ===== src/Common/Tests.antt =====
-- Boolean tests on the native numbers, the conditional, and case lemmas that keep the equation.
use Prim.Native.Nat.{ℕ, compare, Ordering}
use mathlib.Core.Path.{◌≡◌, refl}
use mathlib.Core.Logic.{◌↔◌, ◌⊎◌, inl, inr}
use mathlib.Core.Bool.{Bool, true, false}
use mathlib.Core.Option.{Option, none, some}
use mathlib.Core.List.{List, [], ◌∷◌}
use native.Mathlib.Omega.{arith}

abbrev pub ltb : ℕ → ℕ → Bool
ltb a b = elim (compare a b) [ Ordering.lt ↦ true | _ ↦ false ]

abbrev pub leb : ℕ → ℕ → Bool
leb a b = elim (compare a b) [ Ordering.gt ↦ false | _ ↦ true ]

infix 50 ◌==◌
abbrev pub ◌==◌ : ℕ → ℕ → Bool
a == b = elim (compare a b) [ Ordering.eq ↦ true | _ ↦ false ]

infix 1 if◌then◌else◌
abbrev pub if◌then◌else◌ {ℓ} : {A : Type ℓ} → Bool → A → A → A
if true then x else y = x
if false then x else y = y

pub ==_iff : (a b : ℕ) → ((a == b) ≡ true) ↔ (a ≡ b)
==_iff a b = ground arith

pub Bool-cases : (b : Bool) → (b ≡ true) ⊎ (b ≡ false)
Bool-cases true = inl refl
Bool-cases false = inr refl

pub Option-cases {ℓ} : {A : Type ℓ} (o : Option A) → (o ≡ none) ⊎ ((a : A) × (o ≡ some a))
Option-cases none = inl refl
Option-cases (some a) = inr (a, refl)

abbrev pub is_some {ℓ} : {A : Type ℓ} → Option A → Bool
is_some none = false
is_some (some a) = true

abbrev pub from_option {ℓ} : {A : Type ℓ} → A → Option A → A
from_option d none = d
from_option d (some a) = a

-- A Go switch over conditions: the value of the first case that holds.
abbrev pub switch {ℓ} : {E : Type ℓ} → List (Bool × E) → Option E
switch [] = none
switch ((c, e) ∷ cs) = if c then some e else switch cs

abbrev pub NoneHolds {ℓ} : {E : Type ℓ} → List (Bool × E) → Type 0
NoneHolds [] = Unit
NoneHolds ((c, e) ∷ cs) = (c ≡ false) × NoneHolds cs

pub switch-none {ℓ} : {E : Type ℓ} (cs : List (Bool × E)) → switch cs ≡ none → NoneHolds cs
switch-none [] h = tt
switch-none ((true, e) ∷ cs) h = cc
switch-none ((false, e) ∷ cs) h = (refl, switch-none cs h)

-- ===== src/Capability/JtiHeap.antt =====
-- jtiHeap of connector-lib/capability/capability.go: the methods that container/heap calls.
pub mod Meets
pub mod Heaped
pub mod Forgets
use traversal_connector.Common.{
  ℕ, zero, suc, ◌-◌, Bool, Option, none, some, List, [], ◌∷◌, ◌++◌, length, take,
}
use traversal_connector.Common.Int.{ltb_ℤ}
use traversal_connector.Capability.Opens.{Seen}

-- An index of a slice, none out of range, and an assignment to it.
abbrev pub get_elem? : List Seen → ℕ → Option Seen
get_elem? [] i = none
get_elem? (x ∷ h) zero = some x
get_elem? (x ∷ h) (suc i) = get_elem? h i

abbrev pub set : List Seen → ℕ → Seen → List Seen
set [] i v = []
set (x ∷ h) zero v = v ∷ h
set (x ∷ h) (suc i) v = x ∷ set h i v

-- heap.Interface over slices; none is a panic.
pub record Methods : Type 0 where
  pub len : List Seen → ℕ
  pub less : List Seen → ℕ → ℕ → Option Bool
  pub swap : List Seen → ℕ → ℕ → Option (List Seen)
  pub push : Seen → List Seen → List Seen
  pub pop : List Seen → Option (List Seen × Seen)

abbrev pub is_before : Seen → Seen → Bool
is_before a b = ltb_ℤ a.expires b.expires

unfoldable pub less : List Seen → ℕ → ℕ → Option Bool
less h i j = elim (get_elem? h i) [
  | none ↦ none
  | some a ↦ elim (get_elem? h j) [ none ↦ none | some b ↦ some (is_before a b) ]
]

unfoldable pub swap : List Seen → ℕ → ℕ → Option (List Seen)
swap h i j = elim (get_elem? h i) [
  | none ↦ none
  | some a ↦ elim (get_elem? h j) [ none ↦ none | some b ↦ some (set (set h i b) j a) ]
]

unfoldable pub push : Seen → List Seen → List Seen
push x h = h ++ x ∷ []

unfoldable pub pop : List Seen → Option (List Seen × Seen)
pop h = elim (get_elem? h (length h - 1)) [
  | none ↦ none
  | some last ↦ some (take (length h - 1) h, last)
]

abbrev pub jti_methods : Methods
jti_methods = record { len = length; less = less; swap = swap; push = push; pop = pop }

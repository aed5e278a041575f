-- ===== src/Capability/JtiHeap/Meets.antt =====
-- What container/heap asks of the methods of a slice, which jtiHeap has.
use traversal_connector.Common.{
  ℕ, zero, suc, ◌-◌, ◌≡◌, refl, ap, ◌∙◌, Bool, true, false, some, List, [], ◌∷◌, ◌++◌, ◌==◌,
  if◌then◌else◌, arith, length, length-append, take, Bool-cases, inl, inr,
}
use traversal_connector.Capability.Opens.{Seen}
use traversal_connector.Capability.JtiHeap.{
  get_elem?, set, Methods, is_before, less, swap, push, pop, jti_methods,
}

-- The documentation of heap.Interface and sort.Interface: Less orders the elements by `before`, a
-- strict weak order; Swap exchanges two; Push adds the element Len(), and Pop takes off the
-- element Len() - 1.
pub record Meets (m : Methods) (before : Seen → Seen → Bool) : Type 0 where
  pub len : (h : List Seen) → m.len h ≡ length h
  pub less :
      (h : List Seen) (i j : ℕ) (a b : Seen)
      → get_elem? h i ≡ some a
      → get_elem? h j ≡ some b
      → m.less h i j ≡ some (before a b)
  pub swap :
      (h : List Seen) (i j : ℕ) (a b : Seen)
      → get_elem? h i ≡ some a
      → get_elem? h j ≡ some b
      → (h' : List Seen) × (m.swap h i j ≡ some h')
        × (length h' ≡ length h)
        × ((k : ℕ)
            → get_elem? h' k
              ≡ (if k == j then some a else if k == i then some b else get_elem? h k))
  pub push : (x : Seen) (h : List Seen) → m.push x h ≡ h ++ x ∷ []
  pub pop : (x : Seen) (h : List Seen) → m.pop (h ++ x ∷ []) ≡ some (h, x)
  pub asymmetric : (a b : Seen) → before a b ≡ true → before b a ≡ false
  pub weak : (a b c : Seen) → before a b ≡ false → before b c ≡ false → before a c ≡ false

length-set : (h : List Seen) (i : ℕ) (v : Seen) → length (set h i v) ≡ length h
length-set [] i v = refl
length-set (x ∷ h) zero v = refl
length-set (x ∷ h) (suc i) v = ap suc (length-set h i v)

get_elem?-set :
    (h : List Seen) (i k : ℕ) (v a : Seen)
    → get_elem? h i ≡ some a
    → get_elem? (set h i v) k ≡ (if k == i then some v else get_elem? h k)
get_elem?-set [] i k v a e = cc
get_elem?-set (x ∷ h) zero zero v a e = refl
get_elem?-set (x ∷ h) zero (suc k) v a e = ground arith
get_elem?-set (x ∷ h) (suc i) zero v a e = ground arith
get_elem?-set (x ∷ h) (suc i) (suc k) v a e = ground (arith, get_elem?-set h i k v a e)

get_elem?-last : (h : List Seen) (x : Seen) → get_elem? (h ++ x ∷ []) (length h) ≡ some x
get_elem?-last [] x = refl
get_elem?-last (y ∷ h) x = get_elem?-last h x

take-last : (h : List Seen) (x : Seen) → take (length h) (h ++ x ∷ []) ≡ h
take-last [] x = refl
take-last (y ∷ h) x = ap (λ (t : List Seen). y ∷ t) (take-last h x)

pop-last : (x : Seen) (h : List Seen) → pop (h ++ x ∷ []) ≡ some (h, x)
unfolding pop
pop-last x h =
    let size : length (h ++ x ∷ []) - 1 ≡ length h = omega (arith, length-append h (x ∷ [])) in
    rw (size, pop, get_elem?-last h x)
      (ap (λ (n : ℕ). some (take n (h ++ x ∷ []), x)) size
        ∙ ap (λ (t : List Seen). some (t, x)) (take-last h x))

swapped :
    (h : List Seen) (i j : ℕ) (a b : Seen)
    → get_elem? h i ≡ some a
    → get_elem? h j ≡ some b
    → (k : ℕ)
    → get_elem? (set (set h i b) j a) k
      ≡ (if k == j then some a else if k == i then some b else get_elem? h k)
swapped h i j a b e f k = elim (Bool-cases (j == i)) [
  | inl same ↦
      get_elem?-set (set h i b) j k a b (get_elem?-set h i j b a e ∙ rw (same) refl)
      ∙ ground (arith, get_elem?-set h i k b a e)
  | inr other ↦
      get_elem?-set (set h i b) j k a b (get_elem?-set h i j b a e ∙ rw (other) f)
      ∙ ground (arith, get_elem?-set h i k b a e)
]

less-some :
    (h : List Seen) (i j : ℕ) (a b : Seen)
    → get_elem? h i ≡ some a
    → get_elem? h j ≡ some b
    → less h i j ≡ some (is_before a b)
unfolding less
less-some h i j a b e f = rw (e, less, f) refl

swap-some :
    (h : List Seen) (i j : ℕ) (a b : Seen)
    → get_elem? h i ≡ some a
    → get_elem? h j ≡ some b
    → swap h i j ≡ some (set (set h i b) j a)
unfolding swap
swap-some h i j a b e f = rw (e, swap, f) refl

pub jti_methods-Meets : Meets jti_methods is_before
unfolding less swap push
jti_methods-Meets = record {
  len = λ h. refl;
  less = λ h i j a b e f. less-some h i j a b e f;
  swap = λ h i j a b e f. (
    set (set h i b) j a,
    swap-some h i j a b e f,
    length-set (set h i b) j a ∙ length-set h i b,
    swapped h i j a b e f,
  );
  push = λ x h. refl;
  pop = pop-last;
  asymmetric = λ a b e. ground (arith);
  weak = λ a b c e f. ground (arith);
}

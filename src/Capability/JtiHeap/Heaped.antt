-- ===== src/Capability/JtiHeap/Heaped.antt =====
-- The heap of a verifier: container/heap on the methods of jtiHeap.
use traversal_connector.Common.{
  suc, ◌≡◌, refl, ◌↔◌, Bool, false, Option, none, some, List, [], ◌∷◌, arith, length, All,
}
use traversal_connector.Common.Int.{◌≤ℤ◌}
use traversal_connector.Capability.Opens.{Seen, Heap}
use traversal_connector.Capability.JtiHeap.{Methods, is_before, jti_methods}
use traversal_connector.Capability.JtiHeap.Meets.{Meets, jti_methods-Meets}

-- container/heap: Push and Pop through the methods of a slice. If these meet its contract, both
-- keep the slice a heap and its elements; Pop takes off the root, at index 0, before which no
-- element comes.
pub record Container : Type 1 where
  pub push : Methods → Seen → List Seen → List Seen
  pub pop : Methods → List Seen → Option (Seen × List Seen)
  pub IsHeap : (Seen → Seen → Bool) → List Seen → Type 0
  pub empty_heap : (before : Seen → Seen → Bool) → IsHeap before []
  pub push_heap :
      (m : Methods) (before : Seen → Seen → Bool) (x : Seen) (h : List Seen)
      → Meets m before
      → IsHeap before h
      → IsHeap before (push m x h)
  pub push_items :
      (m : Methods) (before : Seen → Seen → Bool) (x : Seen) (h : List Seen)
      → Meets m before
      → IsHeap before h
      → (P : Seen → Type 0) → All P (push m x h) ↔ (P x × All P h)
  pub pop_heap :
      (m : Methods) (before : Seen → Seen → Bool) (x : Seen) (h : List Seen)
      → Meets m before
      → IsHeap before (x ∷ h)
      → (r : List Seen) × (pop m (x ∷ h) ≡ some (x, r))
        × IsHeap before r
        × (length (x ∷ h) ≡ suc (length r))
        × ((P : Seen → Type 0) → All P (x ∷ h) ↔ (P x × All P r))
  pub root_first :
      (m : Methods) (before : Seen → Seen → Bool) (x : Seen) (h : List Seen)
      → Meets m before
      → IsHeap before (x ∷ h)
      → All (λ y. before y x ≡ false) (x ∷ h)

module _ (c : Container) where
  abbrev pub Kept : Type 0
  Kept = (h : List Seen) × c.IsHeap is_before h

  abbrev pub heap_push : Seen → Kept → Kept
  heap_push x (h, v) =
      (c.push jti_methods x h, c.push_heap jti_methods is_before x h jti_methods-Meets v)

  -- What the loop of take reads as expiry[0], and then heap.Pop.
  unfoldable pub heap_pop : Kept → Option (Seen × Kept)
  heap_pop ([], v) = none
  heap_pop (x ∷ h, v) =
      let (r, _, w, _, _) = c.pop_heap jti_methods is_before x h jti_methods-Meets v in
      some (x, (r, w))

  not_before :
      (x : Seen) (ys : List Seen)
      → All (λ y. is_before y x ≡ false) ys
      → All (λ y. x.expires ≤ℤ y.expires) ys
  not_before x [] h = tt
  not_before x (y ∷ ys) (h, hs) = (ground arith, not_before x ys hs)

  -- What a pop takes off, and what it leaves.
  abbrev pub Popped : Kept → Option (Seen × Kept) → Type 1
  Popped h none = (P : Seen → Type 0) → h.0 ≡ []
  Popped h (some (x, r)) =
      (length h.0 ≡ suc (length r.0))
      × (All (λ y. x.expires ≤ℤ y.expires) h.0)
      × ((P : Seen → Type 0) → All P h.0 ↔ (P x × All P r.0))

  pub heap_pop-Popped : (h : Kept) → Popped h (heap_pop h)
  unfolding heap_pop
  heap_pop-Popped ([], v) = λ P. refl
  heap_pop-Popped (x ∷ h, v) =
      let (r, _, w, size, items) = c.pop_heap jti_methods is_before x h jti_methods-Meets v in
      (
        size,
        not_before x (x ∷ h) (c.root_first jti_methods is_before x h jti_methods-Meets v),
        items,
      )

  unfoldable pub jti_heap : Heap
  jti_heap = record {
    Carrier = Kept;
    empty = ([], c.empty_heap is_before);
    push = heap_push;
    pop = heap_pop;
    items = λ h. h.0;
    items_empty = refl;
    items_push = λ P x h. c.push_items jti_methods is_before x h.0 jti_methods-Meets h.1 P;
    pop_none = λ h e. (rw (e) at (heap_pop-Popped h)) (λ y. Unit {0});
    items_pop = λ P x h r e. (rw (e) at (heap_pop-Popped h)).2 P;
    length_pop = λ x h r e. (rw (e) at (heap_pop-Popped h)).0;
    pop_earliest = λ x h r e. (rw (e) at (heap_pop-Popped h)).1;
  }

-- ===== src/Capability/Opens/Pruned.antt =====
-- What the verifier remembers: only capabilities that have not expired.
use traversal_connector.Common.{
  ℕ, zero, suc, ◌≤◌, ◌≡◌, ◌≢◌, inl, inr, false, some, List, [], ◌∷◌, arith, leb, ◌==◌, length, All,
  Text, text_eq, text_eq_iff, Bool-cases, Option-cases,
}
use traversal_connector.Common.Int.{ℤ, ◌≤ℤ◌, ltb_ℤ}
use traversal_connector.Capability.Opens.{
  Seen, Heap, Opens, with_count, prune_from, prune, count_open, take,
}

module _ (heap : Heap) where
  -- A count belongs to an entry of the heap.
  abbrev pub Tracked : Opens heap → Type 0
  Tracked o = (k : Text) → All (λ x. x.jti ≢ k) (heap.items o.expiry) → o.counts k ≡ 0

  -- No entry has expired.
  abbrev pub Live : ℤ → Opens heap → Type 0
  Live now o = All (λ x. now ≤ℤ x.expires) (heap.items o.expiry)

  dropped-Tracked :
      (o : Opens heap) (x : Seen) (r : heap.Carrier)
      → heap.pop o.expiry ≡ some (x, r)
      → Tracked o
      → Tracked (record { counts = with_count heap o x.jti 0; expiry = r })
  dropped-Tracked o x r popped tracked k absent = elim (Bool-cases (text_eq k x.jti)) [
    | inl same ↦ rw same
    | inr other ↦ rw other (
        tracked k (
          (heap.items_pop (λ y. y.jti ≢ k) x o.expiry r popped).1
            (λ e. ground (arith, text_eq_iff k x.jti), absent)))
  ]

  Live-of_earliest :
      (now : ℤ) (x : Seen) (o : Opens heap) (r : heap.Carrier)
      → heap.pop o.expiry ≡ some (x, r)
      → ltb_ℤ x.expires now ≡ false
      → Live now o
  Live-of_earliest now x o r popped live = All-weaken _ (heap.pop_earliest x o.expiry r popped)
    where
      All-weaken :
          (ys : List Seen) → All (λ y. x.expires ≤ℤ y.expires) ys → All (λ y. now ≤ℤ y.expires) ys
      All-weaken [] h = tt
      All-weaken (y ∷ ys) (h, hs) = (ground arith, All-weaken ys hs)

  prune_from_lem :
      (f : ℕ) (now : ℤ) (o : Opens heap)
      → length (heap.items o.expiry) ≤ f
      → Tracked o
      → Tracked (prune_from heap f now o) × Live now (prune_from heap f now o)
  unfolding prune_from
  prune_from_lem zero now o enough tracked = (tracked, All-none (heap.items o.expiry) enough)
    where
      All-none : (ys : List Seen) → length ys ≤ 0 → All (λ y. now ≤ℤ y.expires) ys
      All-none [] h = tt
      All-none (y ∷ ys) h = absurd (omega arith)
  prune_from_lem (suc f) now o enough tracked = elim (Option-cases (heap.pop o.expiry)) [
    | inl empty ↦ rw (empty, prune_from) (tracked, rw (heap.pop_none o.expiry empty) tt)
    | inr ((x, r), popped) ↦
        rw (popped, prune_from)
          (elim (Bool-cases (ltb_ℤ x.expires now)) [
            | inl over ↦ rw over (
                prune_from_lem f now (record { counts = with_count heap o x.jti 0; expiry = r })
                  (omega (arith, heap.length_pop x o.expiry r popped))
                  (dropped-Tracked o x r popped tracked))
            | inr live ↦ rw live (tracked, Live-of_earliest now x o r popped live)
          ])
  ]

  count_open_lem :
      (j : Text) (expires now : ℤ) (o : Opens heap)
      → now ≤ℤ expires
      → Tracked o
      → Live now o
      → Tracked (count_open heap j expires o).0 × Live now (count_open heap j expires o).0
  unfolding count_open
  count_open_lem j expires now o later tracked live = elim (Bool-cases (leb 4 (o.counts j))) [
    | inl full ↦ rw (full, count_open) (tracked, live)
    | inr room ↦
        rw (room, count_open)
          (elim (Bool-cases (o.counts j == 0)) [
            | inl fresh ↦ rw fresh (
              (λ k absent.
                  let (this, others) =
                    (heap.items_push (λ y. y.jti ≢ k) (record { jti = j; expires = expires })
                        o.expiry).0
                      absent in
                  ground (arith, text_eq_iff k j, this, tracked k others)),
              (heap.items_push (λ y. now ≤ℤ y.expires) (record { jti = j; expires = expires })
                    o.expiry).1
                  (later, live),
            )
            | inr old ↦
                rw old ((λ k absent. ground (arith, text_eq_iff k j, tracked k absent)), live)
          ])
  ]

  -- The same for an open, in a heap of any kind.
  pub take-Live :
      (j : Text) (expires now : ℤ) (o : Opens heap)
      → now ≤ℤ expires
      → Tracked o
      → Tracked (take heap j expires now o).0 × Live now (take heap j expires now o).0
  unfolding take prune
  take-Live j expires now o later tracked =
      let (tracked', live) =
        prune_from_lem (length (heap.items o.expiry)) now o (omega arith) tracked in
      count_open_lem j expires now (prune heap now o) later tracked' live

-- ===== src/Capability/Opens.antt =====
-- Verifier.take: how often each capability was opened. What it needs of its heap is an interface,
-- which JtiHeap fills.
pub mod Limit
pub mod Pruned
use traversal_connector.Common.{
  ℕ, zero, suc, ◌+◌, ◌≡◌, ◌↔◌, Bool, true, false, Option, none, some, List, [], ◌∷◌, leb, ◌==◌,
  if◌then◌else◌, length, All, Text, text_eq,
}
use traversal_connector.Common.Int.{ℤ, ◌≤ℤ◌, ltb_ℤ}

-- One jti and when its capability expires.
pub record Seen : Type 0 where
  pub jti : Text
  pub expires : ℤ

-- `pop` is heap.Pop, and also gives what the loop reads as expiry[0]: the earliest item.
pub record Heap : Type 1 where
  pub Carrier : Type 0
  pub empty : Carrier
  pub push : Seen → Carrier → Carrier
  pub pop : Carrier → Option (Seen × Carrier)
  pub items : Carrier → List Seen
  pub items_empty : items empty ≡ []
  pub items_push :
      (P : Seen → Type 0) (x : Seen) (h : Carrier)
      → All P (items (push x h)) ↔ (P x × All P (items h))
  pub pop_none : (h : Carrier) → pop h ≡ none → items h ≡ []
  pub items_pop :
      (P : Seen → Type 0) (x : Seen) (h r : Carrier)
      → pop h ≡ some (x, r)
      → All P (items h) ↔ (P x × All P (items r))
  pub length_pop :
      (x : Seen) (h r : Carrier) → pop h ≡ some (x, r) → length (items h) ≡ suc (length (items r))
  pub pop_earliest :
      (x : Seen) (h r : Carrier) → pop h ≡ some (x, r) → All (λ y. x.expires ≤ℤ y.expires) (items h)

abbrev pub max_opens : ℕ
max_opens = 4

module _ (heap : Heap) where
  -- A missing key of the map counts 0.
  pub record Opens : Type 0 where
    pub counts : Text → ℕ
    pub expiry : heap.Carrier

  abbrev pub no_opens : Opens
  no_opens = record { counts = λ _. 0; expiry = heap.empty }

  abbrev pub with_count : Opens → Text → ℕ → Text → ℕ
  with_count o j n k = if text_eq k j then n else o.counts k

  -- The loop that drops expired entries, by at most as many rounds as the heap has items.
  unfoldable pub prune_from : ℕ → ℤ → Opens → Opens
  prune_from zero now o = o
  prune_from (suc f) now o = elim (heap.pop o.expiry) [
    | none ↦ o
    | some (x, r) ↦
        let rest = prune_from f now (record { counts = with_count o x.jti 0; expiry = r }) in
        if ltb_ℤ x.expires now then rest else o
  ]

  unfoldable pub prune : ℤ → Opens → Opens
  prune now o = prune_from (length (heap.items o.expiry)) now o

  unfoldable pub count_open : Text → ℤ → Opens → Opens × Bool
  count_open j expires o = if leb max_opens (o.counts j) then (o, false) else (
    record {
      counts = with_count o j (o.counts j + 1);
      expiry =
          if o.counts j == 0
          then heap.push (record { jti = j; expires = expires }) o.expiry
          else o.expiry;
    },
    true,
  )

  unfoldable pub take : Text → ℤ → ℤ → Opens → Opens × Bool
  take j expires now o = count_open j expires (prune now o)

-- ===== src/Capability/Opens/Limit.antt =====
-- A capability opens at most max_opens pipes, whatever else is opened around it.
use traversal_connector.Common.{
  ◌∙◌, ℕ, zero, suc, ◌+◌, ◌≤◌, ◌≡◌, refl, inl, inr, Bool, true, false, ◌&&◌, List, [], ◌∷◌, arith,
  leb, ◌==◌, if◌then◌else◌, length, All, Text, text_eq, text_eq_iff, Bool-cases, Option-cases,
}
use traversal_connector.Common.Int.{ℤ, ◌≤ℤ◌, ◌<ℤ◌, ltb_ℤ}
use traversal_connector.Capability.Opens.{
  Seen, Heap, max_opens, Opens, no_opens, with_count, prune_from, prune, count_open, take,
}

pub record Call : Type 0 where
  pub jti : Text
  pub expires : ℤ
  pub now : ℤ

-- The clock does not go back.
abbrev pub Ordered : ℤ → List Call → Type 0
Ordered t [] = Unit
Ordered t (c ∷ cs) = (t ≤ℤ c.now) × Ordered c.now cs

-- An open of j comes no later than e, the end of every capability with that jti.
abbrev pub Guarded : Text → ℤ → Call → Type 0
Guarded j e c = c.jti ≡ j → (e ≤ℤ c.expires) × (c.now ≤ℤ e)

module _ (heap : Heap) where
  unfoldable pub admitted : Text → List Call → Opens heap → ℕ
  admitted j [] o = 0
  admitted j (c ∷ cs) o =
      let r = take heap c.jti c.expires c.now o in
      (if r.1 && text_eq c.jti j then 1 else 0) + admitted j cs r.0

  abbrev Late : Text → ℤ → Opens heap → Type 0
  Late j e o = All (λ x. x.jti ≡ j → e ≤ℤ x.expires) (heap.items o.expiry)

  abbrev dropped : Opens heap → Seen → heap.Carrier → Opens heap
  dropped o x r = record { counts = with_count heap o x.jti 0; expiry = r }

  -- An entry that has expired is for another jti.
  drop_other :
      (j : Text) (e : ℤ) (f : ℕ) (now : ℤ) (o : Opens heap) (x : Seen) (r : heap.Carrier)
      → (x.jti ≡ j → e ≤ℤ x.expires)
      → Late j e (dropped o x r)
      → now ≤ℤ e
      → ltb_ℤ x.expires now ≡ true
      → (Late j e (dropped o x r)
          → ((prune_from heap f now (dropped o x r)).counts j ≡ (dropped o x r).counts j)
            × Late j e (prune_from heap f now (dropped o x r)))
      → ((prune_from heap f now (dropped o x r)).counts j ≡ o.counts j)
        × Late j e (prune_from heap f now (dropped o x r))
  drop_other j e f now o x r this others early over rest =
      let other : text_eq j x.jti ≡ false = ground (arith, text_eq_iff j x.jti) in
      ((rest others).0 ∙ rw other, (rest others).1)

  prune_from-keeps :
      (j : Text) (e : ℤ) (f : ℕ) (now : ℤ) (o : Opens heap)
      → now ≤ℤ e
      → Late j e o
      → ((prune_from heap f now o).counts j ≡ o.counts j) × Late j e (prune_from heap f now o)
  unfolding prune_from
  prune_from-keeps j e zero now o early late = (refl, late)
  prune_from-keeps j e (suc f) now o early late = elim (Option-cases (heap.pop o.expiry)) [
    | inl empty ↦ rw (empty, prune_from) (refl, late)
    | inr ((x, r), popped) ↦
        let (this, others) =
          (heap.items_pop (λ x. x.jti ≡ j → e ≤ℤ x.expires) x o.expiry r popped).0 late in
        rw (popped, prune_from)
          (elim (Bool-cases (ltb_ℤ x.expires now)) [
            | inl over ↦ rw over (
                drop_other j e f now o x r this others early over
                  (prune_from-keeps j e f now (dropped o x r) early))
            | inr live ↦ rw live (refl, late)
          ])
  ]

  prune-keeps :
      (j : Text) (e now : ℤ) (o : Opens heap)
      → now ≤ℤ e
      → Late j e o
      → ((prune heap now o).counts j ≡ o.counts j) × Late j e (prune heap now o)
  unfolding prune
  prune-keeps j e now o = prune_from-keeps j e (length (heap.items o.expiry)) now o

  abbrev opened : Text → Text → Bool → ℕ
  opened j k accepted = if accepted && text_eq k j then 1 else 0

  -- One call counts an open of j exactly if it is accepted for j, and never past the limit.
  count_open-keeps :
      (j : Text) (e : ℤ) (k : Text) (expires : ℤ) (o : Opens heap)
      → (k ≡ j → e ≤ℤ expires)
      → Late j e o
      → o.counts j ≤ max_opens
      → ((count_open heap k expires o).0.counts j
          ≡ o.counts j + opened j k (count_open heap k expires o).1)
        × Late j e (count_open heap k expires o).0
        × ((count_open heap k expires o).0.counts j ≤ max_opens)
  unfolding count_open
  count_open-keeps j e k expires o g late below =
      let pushed =
        (heap.items_push (λ x. x.jti ≡ j → e ≤ℤ x.expires) (record { jti = k; expires = expires })
            o.expiry).1
          (g, late) in
      elim (Bool-cases (leb max_opens (o.counts k))) [
        | inl full ↦ rw (full, count_open) (omega arith, late, below)
        | inr room ↦
            rw (room, count_open)
              (
                ground (arith, text_eq_iff k j, text_eq_iff j k),
                elim (Bool-cases (o.counts k == 0)) [
                  | inl fresh ↦ rw fresh pushed
                  | inr old ↦ rw old late
                ],
                ground (arith, text_eq_iff k j, text_eq_iff j k),
              )
      ]

  admitted_none :
      (j : Text) (e t : ℤ) (cs : List Call) (o : Opens heap)
      → e <ℤ t
      → Ordered t cs
      → All (Guarded j e) cs
      → admitted j cs o ≡ 0
  unfolding admitted
  admitted_none j e t [] o over order guards = refl
  admitted_none j e t (c ∷ cs) o over (here, order) (guard, guards) =
      let other : text_eq c.jti j ≡ false = ground (arith, text_eq_iff c.jti j) in
      let rest =
        admitted_none j e c.now cs (take heap c.jti c.expires c.now o).0 (omega arith) order
          guards in
      ground (arith, other, rest)

  admitted_bounded :
      (j : Text) (e t : ℤ) (cs : List Call) (o : Opens heap)
      → Ordered t cs
      → All (Guarded j e) cs
      → Late j e o
      → o.counts j ≤ max_opens
      → admitted j cs o + o.counts j ≤ max_opens
  unfolding admitted take
  admitted_bounded j e t [] o order guards late below = omega arith
  admitted_bounded j e t (c ∷ cs) o (here, order) (guard, guards) late below =
      elim (Bool-cases (ltb_ℤ e c.now)) [
        | inl over ↦
            let none_left =
              admitted_none j e c.now (c ∷ cs) o (ground arith) (omega arith, order)
                (guard, guards) in
            omega (arith, none_left)
        | inr early ↦
            let (same, late') = prune-keeps j e c.now o (ground arith) late in
            let (count, late'', below') =
              count_open-keeps j e c.jti c.expires (prune heap c.now o) (λ h. (guard h).0) late'
                (rw same below) in
            omega (
              arith,
              admitted_bounded j e c.now cs (take heap c.jti c.expires c.now o).0 order guards
                  late'' below',
              count,
              same,
            )
      ]

  -- From a verifier that has opened nothing, with a clock that does not go back: however many
  -- times a jti is presented, among any other capabilities, at most max_opens opens of it are
  -- admitted, if every open of it comes by its expiry.
  pub admitted-le-max_opens :
      (j : Text) (e t : ℤ) (cs : List Call)
      → Ordered t cs
      → All (Guarded j e) cs
      → admitted j cs (no_opens heap) ≤ max_opens
  admitted-le-max_opens j e t cs order guards = omega (
    arith,
    admitted_bounded j e t cs (no_opens heap) order guards (rw heap.items_empty tt) (omega arith),
  )

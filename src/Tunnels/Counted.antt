-- ===== src/Tunnels/Counted.antt =====
-- The counter of the tunnels that are up, and the tunnels that are open.
use traversal_connector.Common.{
  ℕ, zero, suc, ◌+◌, ◌≤◌, ◌≡◌, refl, Bool, true, false, not, ◌&&◌, List, [], ◌∷◌, arith,
  if◌then◌else◌, length, Bool-cases, inl, inr, subst, ◌∙◌,
}
use traversal_connector.Common.Int.{ℤ, pos, negsuc, ◌+ℤ◌}
use traversal_connector.Tunnels.{
  Tunnels, is_ready, tracked, Dialed, failed, no_alpn, no_preface, connected, Served, Holder,
  looping, dialing, serving, waiting, stopped, Happening, asked_to_replace, closes, sees_replaced,
  sees_closed, Input, World, Event, moves, old_closes, stops, ends, redial, on_dialed, on_tunnel,
  advance, advance_at, old_closed, step, run, loops, start, zero_tunnels,
}

-- The tunnel of a loop that is open, and those of all of them.
abbrev pub held {ℓ} : {R : Type ℓ} → Holder R → ℕ
held (serving r s) = if s.closed then 0 else 1
held _ = 0

abbrev pub all_held {ℓ} : {R : Type ℓ} → List (Holder R) → ℕ
all_held [] = 0
all_held (h ∷ hs) = held h + all_held hs

-- The counter holds n tunnels, and a tunnel that is up has been up.
abbrev pub Holds : ℕ → Tunnels → Type 0
Holds n t = (t.up ≡ pos n) × ((t.ever_up ≡ false) → n ≡ 0)

one_more : (n : ℕ) (t : Tunnels) → Holds n t → Holds (suc n) (tracked (pos 1) t)
unfolding tracked ◌+ℤ◌
one_more n t (e, f) = (rw (e) (ground arith), λ never. absurd (cc))

one_less : (n : ℕ) (t : Tunnels) → Holds (suc n) t → Holds n (tracked (negsuc 0) t)
unfolding tracked ◌+ℤ◌
one_less n t (e, f) = (rw (e) (ground arith), λ never. absurd (ground (arith, f never)))

same_number : (n m : ℕ) (t : Tunnels) → n ≡ m → Holds n t → Holds m t
same_number n m t e v = subst (λ (x : ℕ). Holds x t) e v

module _ {ℓ} {R : Type ℓ} (reset : R → R) (next : R → R × ℤ) where
  redial-held : (r : R) (elapsed : ℤ) (b : Bool) → held (redial reset next r elapsed b) ≡ 0
  redial-held r elapsed true = refl
  redial-held r elapsed false = refl

  dialed-Holds :
      (d : Dialed) (elapsed : ℤ) (t : Tunnels) (r : R) (k : ℕ)
      → Holds k t
      → let (t', o, h') = on_dialed reset next d elapsed t r in Holds (k + o + held h') t'
  dialed-Holds failed elapsed t r k v = same_number k (k + 0 + 0) t (omega arith) v
  dialed-Holds no_alpn elapsed t r k v = same_number k (k + 0 + 0) t (omega arith) v
  dialed-Holds no_preface elapsed t r k v = same_number k (k + 0 + 0) t (omega arith) v
  dialed-Holds connected elapsed t r k v =
      same_number (suc k) (k + 0 + 1) (tracked (pos 1) t) (omega arith) (one_more k t v)

  tunnel-Holds :
      (a : Happening) (elapsed : ℤ) (t : Tunnels) (r : R) (s : Served) (k : ℕ)
      → Holds (k + held (serving r s)) t
      → let (t', o, h') = on_tunnel reset next a elapsed t r s in Holds (k + o + held h') t'
  tunnel-Holds asked_to_replace elapsed t r s k v =
      same_number (k + held (serving r s)) (k + 0 + held (serving r s)) t (omega arith) v
  tunnel-Holds closes elapsed t r s k v = elim (Bool-cases s.closed) [
    | inl yes_ ↦ rw (yes_) (same_number (k + held (serving r s)) (k + 0 + 0) t (ground arith) v)
    | inr no_ ↦ rw (no_) (
        same_number k (k + 0 + 0) (tracked (negsuc 0) t) (omega arith)
          (one_less k t (same_number (k + held (serving r s)) (suc k) t (ground arith) v)))
  ]
  tunnel-Holds sees_replaced elapsed t r s k v = elim (Bool-cases s.replaced) [
    | inl yes_ ↦
        rw (yes_)
          (same_number (k + held (serving r s)) (k + held (serving r s) + 0) t (omega arith) v)
    | inr no_ ↦
        rw (no_)
          (same_number (k + held (serving r s)) (k + 0 + held (serving r s)) t (omega arith) v)
  ]
  tunnel-Holds sees_closed elapsed t r s k v = elim (Bool-cases s.closed) [
    | inl yes_ ↦ rw (yes_) (
        same_number (k + held (serving r s)) (k + 0 + held (redial reset next r elapsed false)) t
          (ground arith) v)
    | inr no_ ↦ rw (no_) (same_number (k + held (serving r s)) (k + 0 + 1) t (ground arith) v)
  ]

  advance-Holds :
      (a : Input) (t : Tunnels) (h : Holder R) (k : ℕ)
      → Holds (k + held h) t
      → let (t', o, h') = advance reset next a t h in Holds (k + o + held h') t'
  unfolding advance
  advance-Holds a t (looping r) k v = elim (Bool-cases (not t.ended && not t.stopping)) [
    | inl yes_ ↦ rw (yes_) (same_number (k + 0) (k + 0 + 0) t (omega arith) v)
    | inr no_ ↦ rw (no_) (same_number (k + 0) (k + 0 + 0) t (omega arith) v)
  ]
  advance-Holds a t (dialing r) k v =
      dialed-Holds a.dialed a.elapsed t r k (same_number (k + 0) k t (omega arith) v)
  advance-Holds a t (serving r s) k v = tunnel-Holds a.happens a.elapsed t r s k v
  advance-Holds a t (waiting r wait) k v = same_number (k + 0) (k + 0 + 0) t (omega arith) v
  advance-Holds a t stopped k v = same_number (k + 0) (k + 0 + 0) t (omega arith) v

  advance_at-Holds :
      (i : ℕ) (a : Input) (t : Tunnels) (hs : List (Holder R)) (k : ℕ)
      → Holds (k + all_held hs) t
      → let (t', o, hs') = advance_at reset next i a t hs in
        (length hs' ≡ length hs) × Holds (k + o + all_held hs') t'
  unfolding advance_at
  advance_at-Holds i a t [] k v = (refl, same_number (k + 0) (k + 0 + 0) t (omega arith) v)
  advance_at-Holds zero a t (h ∷ hs) k v =
      let (t', o, h') = advance reset next a t h in
      (
        refl,
        same_number (k + all_held hs + o + held h') (k + o + (held h' + all_held hs)) t'
            (omega arith)
            (advance-Holds a t h (k + all_held hs) (
              same_number (k + (held h + all_held hs)) (k + all_held hs + held h) t (omega arith)
                v)),
      )
  advance_at-Holds (suc i) a t (h ∷ hs) k v =
      let (t', o, hs') = advance_at reset next i a t hs in
      let (long, v') =
        advance_at-Holds i a t hs (k + held h)
          (same_number (k + (held h + all_held hs)) (k + held h + all_held hs) t (omega arith) v) in
      (
        omega (arith, long),
        same_number (k + held h + o + all_held hs') (k + o + (held h + all_held hs')) t'
            (omega arith) v',
      )

  -- The counter is that of the tunnels that are open, the replaced ones included.
  abbrev pub Counted : ℕ → World R → Type 0
  Counted count w = Holds (w.old + all_held w.holders) w.counters × (length w.holders ≡ count)

  old-Counted :
      (n count : ℕ) (w : World R)
      → w.old ≡ n
      → Counted count w
      → Counted count (old_closed reset next n w)
  old-Counted zero count w e c = c
  old-Counted (suc n) count w e (v, l) = (
    one_less (n + all_held w.holders) w.counters (
        same_number (w.old + all_held w.holders) (suc (n + all_held w.holders)) w.counters
          (omega (arith, e)) v),
    l,
  )

  step-Counted :
      (e : Event) (count : ℕ) (w : World R) → Counted count w → Counted count (step reset next e w)
  unfolding step
  step-Counted (moves i a) count w (v, l) =
      let (long, v') = advance_at-Holds i a w.counters w.holders w.old v in (v', long ∙ l)
  step-Counted old_closes count w c = old-Counted w.old count w refl c
  step-Counted stops count w (v, l) = (v, l)
  step-Counted ends count w (v, l) = (v, l)

  pub run-Counted :
      (es : List Event) (count : ℕ) (w : World R)
      → Counted count w
      → Counted count (run reset next es w)
  unfolding run
  run-Counted [] count w v = v
  run-Counted (e ∷ es) count w v =
      run-Counted es count (step reset next e w) (step-Counted e count w v)

  loops-held : (r : R) (n : ℕ) → (all_held (loops r n) ≡ 0) × (length (loops r n) ≡ n)
  loops-held r zero = (refl, refl)
  loops-held r (suc n) =
      let (none_, long) = loops-held r n in (omega (arith, none_), omega (arith, long))

  pub start-Counted : (r : R) (count : ℕ) → Counted count (start r count)
  start-Counted r count =
      let (none_, long) = loops-held r count in
      (
        same_number 0 (0 + all_held (loops r count)) zero_tunnels (omega (arith, none_))
            (refl, λ x. refl),
        long,
      )

  all_held-length : (hs : List (Holder R)) → all_held hs ≤ length hs
  all_held-length [] = omega arith
  all_held-length (h ∷ hs) = ground (arith, all_held-length hs)

  -- However the loops of a connector's tunnels, the tunnels and its stop interleave, from its start
  -- on, the counter of the tunnels that are up is the number that are open: those that are being
  -- replaced, and at most Count others. Until it is ready, none is.
  pub run_counted :
      (es : List Event) (r : R) (count : ℕ)
      → let w = run reset next es (start r count) in
        (w.counters.up ≡ pos (w.old + all_held w.holders))
        × (all_held w.holders ≤ count)
        × (is_ready w.counters ≡ false → w.old + all_held w.holders ≡ 0)
  run_counted es r count =
      let w = run reset next es (start r count) in
      let ((e, idle), long) = run-Counted es count (start r count) (start-Counted r count) in
      let few = all_held-length w.holders in
      (e, omega (arith, few, long), λ off. idle (ground (arith)))

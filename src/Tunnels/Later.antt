-- ===== src/Tunnels/Later.antt =====
-- What stays true of the tunnels of a connector.
use traversal_connector.Common.{
  ℕ, zero, suc, ◌+◌, ◌≤◌, ◌≡◌, refl, Bool, true, false, List, [], ◌∷◌, arith, Bool-cases, inl, inr,
}
use traversal_connector.Common.Int.{ℤ, pos, negsuc, ltb_ℤ}
use traversal_connector.Tunnels.{
  Tunnels, is_ready, tracked, Dialed, failed, no_alpn, no_preface, connected, Served, Holder,
  looping, dialing, serving, waiting, stopped, Happening, asked_to_replace, closes, sees_replaced,
  sees_closed, Input, World, Event, moves, old_closes, stops, ends, redial, on_dialed, on_tunnel,
  advance, advance_at, old_closed, step, run, start,
}
use traversal_connector.Tunnels.Counted.{all_held, Holds, run-Counted, start-Counted}

-- The loops that are dialing.
abbrev pub in_dial {ℓ} : {R : Type ℓ} → Holder R → ℕ
in_dial (dialing r) = 1
in_dial _ = 0

abbrev pub all_dialing {ℓ} : {R : Type ℓ} → List (Holder R) → ℕ
all_dialing [] = 0
all_dialing (h ∷ hs) = in_dial h + all_dialing hs

-- How counters go on: readiness and a stop last.
record Lasts (t t' : Tunnels) : Type 0 where
  ever : t.ever_up ≡ true → t'.ever_up ≡ true
  stop : t.stopping ≡ true → t'.stopping ≡ true

same-Lasts : (t : Tunnels) → Lasts t t
same-Lasts t = record { ever = λ e. e; stop = λ e. e }

tracked-Lasts : (delta : ℤ) (t : Tunnels) → Lasts t (tracked delta t)
unfolding tracked
tracked-Lasts delta t = elim (Bool-cases (ltb_ℤ (pos 0) delta)) [
  | inl yes_ ↦ record { ever = λ e. rw (yes_) refl; stop = λ e. rw (yes_) e }
  | inr no_ ↦ record { ever = λ e. rw (no_) e; stop = λ e. rw (no_) e }
]

module _ {ℓ} {R : Type ℓ} (reset : R → R) (next : R → R × ℤ) where
  redial-idle : (r : R) (elapsed : ℤ) (b : Bool) → in_dial (redial reset next r elapsed b) ≡ 0
  redial-idle r elapsed true = refl
  redial-idle r elapsed false = refl

  tunnel-Lasts :
      (a : Happening) (elapsed : ℤ) (t : Tunnels) (r : R) (s : Served)
      → let (t', o, h') = on_tunnel reset next a elapsed t r s in Lasts t t' × (in_dial h' ≡ 0)
  tunnel-Lasts asked_to_replace elapsed t r s = (same-Lasts t, refl)
  tunnel-Lasts closes elapsed t r s = elim (Bool-cases s.closed) [
    | inl yes_ ↦ rw (yes_) (same-Lasts t, refl)
    | inr no_ ↦ rw (no_) (tracked-Lasts (negsuc 0) t, refl)
  ]
  tunnel-Lasts sees_replaced elapsed t r s = elim (Bool-cases s.replaced) [
    | inl yes_ ↦ rw (yes_) (same-Lasts t, refl)
    | inr no_ ↦ rw (no_) (same-Lasts t, refl)
  ]
  tunnel-Lasts sees_closed elapsed t r s = elim (Bool-cases s.closed) [
    | inl yes_ ↦ rw (yes_) (same-Lasts t, redial-idle r elapsed false)
    | inr no_ ↦ rw (no_) (same-Lasts t, refl)
  ]

  dialed-Lasts :
      (d : Dialed) (elapsed : ℤ) (t : Tunnels) (r : R)
      → let (t', o, h') = on_dialed reset next d elapsed t r in Lasts t t' × (in_dial h' ≡ 0)
  dialed-Lasts failed elapsed t r = (same-Lasts t, refl)
  dialed-Lasts no_alpn elapsed t r = (same-Lasts t, refl)
  dialed-Lasts no_preface elapsed t r = (same-Lasts t, refl)
  dialed-Lasts connected elapsed t r = (tracked-Lasts (pos 1) t, refl)

  advance-Lasts :
      (a : Input) (t : Tunnels) (h : Holder R)
      → let (t', o, h') = advance reset next a t h in
        Lasts t t' × (t.stopping ≡ true → in_dial h' ≤ in_dial h)
  unfolding advance
  advance-Lasts a t (looping r) = (same-Lasts t, λ e. ground arith)
  advance-Lasts a t (dialing r) =
      let (l, idle) = dialed-Lasts a.dialed a.elapsed t r in (l, λ e. omega (arith, idle))
  advance-Lasts a t (serving r s) =
      let (l, idle) = tunnel-Lasts a.happens a.elapsed t r s in (l, λ e. omega (arith, idle))
  advance-Lasts a t (waiting r wait) = (same-Lasts t, λ e. omega arith)
  advance-Lasts a t stopped = (same-Lasts t, λ e. omega arith)

  advance_at-Lasts :
      (i : ℕ) (a : Input) (t : Tunnels) (hs : List (Holder R))
      → let (t', o, hs') = advance_at reset next i a t hs in
        Lasts t t' × (t.stopping ≡ true → all_dialing hs' ≤ all_dialing hs)
  unfolding advance_at
  advance_at-Lasts i a t [] = (same-Lasts t, λ e. omega arith)
  advance_at-Lasts zero a t (h ∷ hs) =
      let (l, few) = advance-Lasts a t h in (l, λ e. omega (arith, few e))
  advance_at-Lasts (suc i) a t (h ∷ hs) =
      let (l, few) = advance_at-Lasts i a t hs in (l, λ e. omega (arith, few e))

  -- How a connector goes on from one state to a later one.
  GoesOn : World R → World R → Type 0
  GoesOn w w' =
      Lasts w.counters w'.counters
      × (w.counters.stopping ≡ true → all_dialing w'.holders ≤ all_dialing w.holders)

  old-GoesOn : (n : ℕ) (w : World R) → GoesOn w (old_closed reset next n w)
  unfolding GoesOn
  old-GoesOn zero w = (same-Lasts w.counters, λ e. omega arith)
  old-GoesOn (suc n) w = (tracked-Lasts (negsuc 0) w.counters, λ e. omega arith)

  step-GoesOn : (e : Event) (w : World R) → GoesOn w (step reset next e w)
  unfolding step GoesOn
  step-GoesOn (moves i a) w = advance_at-Lasts i a w.counters w.holders
  step-GoesOn old_closes w = old-GoesOn w.old w
  step-GoesOn stops w = (record { ever = λ e. e; stop = λ e. refl }, λ e. omega arith)
  step-GoesOn ends w = (record { ever = λ e. e; stop = λ e. e }, λ e. omega arith)

  run-GoesOn : (es : List Event) (w : World R) → GoesOn w (run reset next es w)
  unfolding run GoesOn
  run-GoesOn [] w = (same-Lasts w.counters, λ e. omega arith)
  run-GoesOn (e ∷ es) w =
      let w' = step reset next e w in
      let (l, few) = step-GoesOn e w in
      let (l', few') = run-GoesOn es w' in
      (
        record { ever = λ x. l'.ever (l.ever x); stop = λ x. l'.stop (l.stop x) },
        λ x. omega (arith, few x, few' (l.stop x)),
      )

  been_up : (n : ℕ) (t : Tunnels) → Holds n t → is_ready t ≡ true → t.ever_up ≡ true
  been_up n t (e, idle) ready = elim (Bool-cases t.ever_up) [
    | inl yes_ ↦ yes_
    | inr no_ ↦ let none_ = idle no_ in absurd (ground (arith, e, none_))
  ]

  -- From the start of a connector on, and however its loops, its tunnels and its stop interleave:
  -- once it is ready it stays so, and once it is stopping it stays that, and the loops that are
  -- dialing only get fewer.
  pub run_lasts :
      (before after : List Event) (r : R) (count : ℕ)
      → let w = run reset next before (start r count) in
        let w' = run reset next after w in
        (is_ready w.counters ≡ true → is_ready w'.counters ≡ true)
        × (w.counters.stopping ≡ true
            → (w'.counters.stopping ≡ true) × (all_dialing w'.holders ≤ all_dialing w.holders))
  unfolding GoesOn
  run_lasts before after r count =
      let w = run reset next before (start r count) in
      let (counts, _) =
        run-Counted reset next before count (start r count) (start-Counted reset next r count) in
      let (l, few) = run-GoesOn after w in
      (
        λ ready.
            let ever = l.ever (been_up (w.old + all_held w.holders) w.counters counts ready) in
            ground (arith, ever),
        λ e. (l.stop e, few e),
      )

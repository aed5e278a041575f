-- ===== src/Drain/Invariant.antt =====
-- What holds of a tracker between two calls, and what each call does.
use traversal_connector.Common.{
  ℕ, ◌+◌, ◌-◌, ◌≤◌, ◌<◌, ◌≡◌, refl, ◌⊎◌, Bool, true, false, Option, none, some, arith, ◌==◌,
  if◌then◌else◌, Option-cases, inl, inr,
}
use traversal_connector.Drain.{Tracker, zero_tracker, add, returned, done, drain}

-- The channel is open exactly while work is in flight; every older channel is closed, and a
-- channel not made yet is not.
pub record Inv (t : Tracker) : Type 0 where
  pub idle_nil : t.idle ≡ none → t.n ≡ 0
  pub idle_made : (c : ℕ) → t.idle ≡ some c → c < t.makes
  pub idle_state : (c : ℕ) → t.idle ≡ some c → t.closed c ≡ (t.n == 0)
  pub older_closed : (c : ℕ) → c < t.makes → (t.idle ≡ some c) ⊎ (t.closed c ≡ true)
  pub unmade_open : (c : ℕ) → t.makes ≤ c → t.closed c ≡ false

pub zero_tracker-Inv : Inv zero_tracker
zero_tracker-Inv = record {
  idle_nil = λ _. refl;
  idle_made = λ c e. ground arith;
  idle_state = λ c e. ground arith;
  older_closed = λ c h. ground arith;
  unmade_open = λ c _. refl;
}

pub add-Inv : (limit : ℕ) (t : Tracker) → Inv t → Inv (add limit t).0
unfolding add
add-Inv limit t v = record {
  idle_nil = λ e. ground (arith, v.idle_nil);
  idle_made = λ c e. ground (arith, v.idle_made c);
  idle_state = λ c e. ground (arith, v.idle_state c, v.unmade_open c);
  older_closed = λ c h. ground (arith, v.older_closed c, v.idle_state c);
  unmade_open = λ c h. ground (arith, v.unmade_open c);
}

pub done-Inv : (t u : Tracker) → Inv t → done t ≡ returned u → Inv u
unfolding done
done-Inv t u v h = record {
  idle_nil = λ e. ground (arith, v.idle_nil);
  idle_made = λ c e. ground (arith, v.idle_made c);
  idle_state = λ c e. ground (arith, v.idle_state c, v.idle_nil);
  older_closed = λ c k. ground (arith, v.older_closed c, v.idle_state c);
  unmade_open = λ c k. ground (arith, v.unmade_open c, v.idle_made c);
}

pub drain-Inv : (t : Tracker) → Inv t → Inv (drain t)
unfolding drain
drain-Inv t v = record {
  idle_nil = v.idle_nil;
  idle_made = v.idle_made;
  idle_state = v.idle_state;
  older_closed = v.older_closed;
  unmade_open = v.unmade_open;
}

abbrev close_at : Option ℕ → (ℕ → Bool) → ℕ → Bool
close_at none closed = closed
close_at (some c) closed = λ d. if d == c then true else closed d

abbrev counted_down : Tracker → Tracker
counted_down t = record t {
  n = t.n - 1;
  closed = if t.n - 1 == 0 then close_at t.idle t.closed else t.closed;
}

done-counted_down : (t : Tracker) → Inv t → 0 < t.n → done t ≡ returned (counted_down t)
unfolding done
done-counted_down t v h = elim (Option-cases t.idle) [
  | inl e ↦ absurd (omega (arith, v.idle_nil e))
  | inr (c, e) ↦ ground (arith, v.idle_state c)
]

-- A tracker that keeps the invariant panics on `Done` only without an `Add`: with work in flight
-- the call returns, counts one fewer, and closes the channel exactly when nothing is left.
pub done_returns :
    (t : Tracker)
    → Inv t
    → 0 < t.n
    → (u : Tracker) × (done t ≡ returned u)
      × (u.n + 1 ≡ t.n)
      × (u.idle ≡ t.idle)
      × ((c : ℕ) → t.idle ≡ some c → u.closed c ≡ (u.n == 0))
done_returns t v h =
    let e : done t ≡ returned (counted_down t) = done-counted_down t v h in
    (
      counted_down t,
      e,
      omega arith,
      refl,
      λ c k. ground (arith, (done-Inv t (counted_down t) v e).idle_state c k),
    )

-- What the calls do to the count and to the mark.
pub add-facts :
    (limit : ℕ) (t : Tracker)
    → ((add limit t).0.n ≡ t.n + (if (add limit t).1 then 1 else 0))
      × ((add limit t).0.draining ≡ t.draining)
      × (0 < limit → t.n ≤ limit → (add limit t).0.n ≤ limit)
unfolding add
add-facts limit t = (ground arith, ground arith, λ p h. ground arith)

pub done-draining : (t u : Tracker) → done t ≡ returned u → u.draining ≡ t.draining
unfolding done
done-draining t u e = ground arith

pub add-admits : (limit : ℕ) (t : Tracker) → (add limit t).1 ≡ true → (limit ≡ 0) ⊎ (t.n < limit)
unfolding add
add-admits limit t e = ground arith

pub add-refuses : (limit : ℕ) (t : Tracker) → (add limit t).1 ≡ false → (add limit t).0 ≡ t
unfolding add
add-refuses limit t e = ground arith

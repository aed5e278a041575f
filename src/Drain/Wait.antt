-- ===== src/Drain/Wait.antt =====
-- `Wait` among the other calls on its tracker: each step is one critical section, or one case of
-- the select becoming ready.
use traversal_connector.Common.{ℕ, ◌≤◌, ◌<◌, ◌≡◌, Option, none, some, arith, Option-cases, inl, inr}
use traversal_connector.Drain.{
  Tracker, zero_tracker, add, returned, done, drain, Waiter, looking, drained, blocked, look, wake,
  give_up,
}
use traversal_connector.Drain.Invariant.{Inv, zero_tracker-Inv, add-Inv, done-Inv, drain-Inv}

-- One waiter and the tracker; the calls of all other goroutines are the steps on the tracker.
pub record System : Type 0 where
  pub tracker : Tracker
  pub waiter : Waiter

pub data Step (s : System) (r : System) : Type 0 where
  adds : (limit : ℕ) → r ≡ record s { tracker = (add limit s.tracker).0 } → Step s r
  ends : (u : Tracker) → done s.tracker ≡ returned u → r ≡ record s { tracker = u } → Step s r
  drains : r ≡ record s { tracker = drain s.tracker } → Step s r
  looks : s.waiter ≡ looking → r ≡ record s { waiter = look s.tracker } → Step s r
  wakes :
      (c : Option ℕ) → s.waiter ≡ blocked c → r ≡ record s { waiter = wake s.tracker c } → Step s r
  expires :
      (c : Option ℕ) → s.waiter ≡ blocked c → r ≡ record s { waiter = give_up s.tracker } → Step s r

pub data Reach (s : System) : System → Type 0 where
  here : Reach s s
  next : {r t : System} → Reach s r → Step r t → Reach s t

abbrev pub initial : System
initial = record { tracker = zero_tracker; waiter = looking }

-- A blocked waiter holds a channel that the tracker made.
record IsSound (s : System) : Type 0 where
  tracker : Inv s.tracker
  held : (c : Option ℕ) → s.waiter ≡ blocked c → (d : ℕ) × (c ≡ some d) × (d < s.tracker.makes)

add-makes : (limit : ℕ) (t : Tracker) → t.makes ≤ (add limit t).0.makes
unfolding add
add-makes limit t = ground arith

done-makes : (t u : Tracker) → done t ≡ returned u → u.makes ≡ t.makes
unfolding done
done-makes t u h = ground arith

looks-held :
    (t : Tracker) (c : Option ℕ)
    → Inv t
    → look t ≡ blocked c
    → (d : ℕ) × (c ≡ some d) × (d < t.makes)
unfolding look
looks-held t c v h = elim (Option-cases t.idle) [
  | inl e ↦ absurd (ground (arith, v.idle_nil e))
  | inr (d, e) ↦ (d, ground arith, v.idle_made d e)
]

wake-blocked : (t : Tracker) (c b : Option ℕ) → wake t c ≡ blocked b → b ≡ c
unfolding wake
wake-blocked t none b h = ground arith
wake-blocked t (some c) b h = ground arith

Step-IsSound : {s r : System} → Step s r → IsSound s → IsSound r
Step-IsSound {s} {r} (adds limit e) v = rw e (record {
  tracker = add-Inv limit s.tracker v.tracker;
  held = λ c h.
      let (d, same, below) = v.held c h in (d, same, omega (arith, add-makes limit s.tracker));
})
Step-IsSound {s} {r} (ends u h e) v = rw e (record {
  tracker = done-Inv s.tracker u v.tracker h;
  held = λ c k.
      let (d, same, below) = v.held c k in (d, same, omega (arith, done-makes s.tracker u h));
})
Step-IsSound {s} {r} (drains e) v = rw e (record {
  tracker = drain-Inv s.tracker v.tracker;
  held = λ c k. let (d, same, below) = v.held c k in (d, same, unfold drain in below);
})
Step-IsSound {s} {r} (looks h e) v =
    rw e (record { tracker = v.tracker; held = λ c k. looks-held s.tracker c v.tracker k })
Step-IsSound {s} {r} (wakes c h e) v = rw e (record {
  tracker = v.tracker;
  held = λ b k. v.held b (ground (arith, wake-blocked s.tracker c b));
})
Step-IsSound {s} {r} (expires c h e) v =
    rw e (record { tracker = v.tracker; held = λ b k. absurd (unfold give_up in cc) })

Reach-IsSound : {s : System} → Reach initial s → IsSound s
Reach-IsSound here = record { tracker = zero_tracker-Inv; held = λ c h. absurd (cc) }
Reach-IsSound (next r st) = Step-IsSound st (Reach-IsSound r)

-- No wake-up is lost: whatever calls came before, a `Wait` that is blocked while nothing is in
-- flight finds its channel closed, looks again, and returns with no error.
pub wait_wakes :
    {s : System} (c : Option ℕ)
    → Reach initial s
    → s.waiter ≡ blocked c
    → s.tracker.n ≡ 0
    → (wake s.tracker c ≡ looking) × (look s.tracker ≡ drained)
unfolding wake look
wait_wakes {s} c r h z =
    let v = Reach-IsSound r in
    let (d, same, below) = v.held c h in
    (ground (arith, v.tracker.idle_state d, v.tracker.older_closed d), ground arith)

-- ===== src/Halfconn/Invariant.antt =====
-- What holds of both directions and the outcome.
use traversal_connector.Common.{
  ◌≡◌, refl, sym, ◌⊎◌, inl, inr, ◌≢◌, Bool, true, false, Option, none, some, List, [], ◌∷◌, arith,
  Bool-cases, Option-cases, subst,
}
use traversal_connector.Halfconn.{
  Outcome, completed, limit, caller_aborted, dest_aborted, Link, copy_end, Splicing, start, fail,
  fail_with, has_returned, settle_once, Event, up_answers, down_answers, limit_fires, settles, step,
  run,
}
use traversal_connector.Halfconn.Copied.{
  Good, IsPrefix, Copied, copy_from-Copied, copy_from-returned,
}

abbrev pub Failed : Link → Type 0
Failed l = IsPrefix l.taken l.given × (has_returned l.copier ≡ true)

abbrev pub Fate : Splicing → Outcome → Type 0
Fate p o =
    ((o ≢ completed) × (p.caller_reset ≡ true))
    ⊎ ((o ≡ completed)
        × (p.caller_reset ≡ false)
        × (has_returned p.up.copier ≡ true)
        × (has_returned p.down.copier ≡ true))

pub record Inv (p : Splicing) : Type 0 where
  pub up : Good p.up.copier p.up ⊎ (Failed p.up × (p.caller_reset ≡ true))
  pub down : Good p.down.copier p.down ⊎ (Failed p.down × (p.caller_reset ≡ true))
  pub resets : p.dest_reset ≡ p.caller_reset
  pub pending : p.once ≡ none → p.caller_reset ≡ false
  pub settled : (o : Outcome) → p.once ≡ some o → Fate p o

pub start-Inv : Inv start
start-Inv = record {
  up = inl (refl, refl);
  down = inl (refl, refl);
  resets = refl;
  pending = λ e. refl;
  settled = λ o e. absurd (cc);
}

abbrev aborted : Outcome → Splicing → Splicing
aborted o p = record p { once = some o; caller_reset = true; dest_reset = true }

fail-none : (o : Outcome) (p : Splicing) → p.once ≡ none → fail o p ≡ aborted o p
unfolding fail
fail-none o p e = ground arith

fail-some : (o x : Outcome) (p : Splicing) → p.once ≡ some x → fail o p ≡ p
unfolding fail
fail-some o x p e = ground arith

with_reset :
    (l : Link) (b : Bool)
    → b ≡ true
    → Good l.copier l ⊎ Failed l
    → Good l.copier l ⊎ (Failed l × (b ≡ true))
with_reset l b e (inl g) = inl g
with_reset l b e (inr f) = inr (f, e)

-- A failure before the outcome is completed.
fail-Inv :
    (o : Outcome) (p : Splicing)
    → o ≢ completed
    → Good p.up.copier p.up ⊎ Failed p.up
    → Good p.down.copier p.down ⊎ Failed p.down
    → p.dest_reset ≡ p.caller_reset
    → ((x : Outcome) → p.once ≡ some x → p.caller_reset ≡ true)
    → ((x : Outcome) → p.once ≡ some x → x ≢ completed)
    → Inv (fail o p)
fail-Inv o p f up down same reset other = elim (Option-cases p.once) [
  | inl open_ ↦ subst Inv (sym (fail-none o p open_)) (record {
    up = with_reset p.up true refl up;
    down = with_reset p.down true refl down;
    resets = refl;
    pending = λ e. absurd (cc);
    settled =
        λ x e. let same : o ≡ x = ground arith in inl (subst (λ y. y ≢ completed) same f, refl);
  })
  | inr (x, e) ↦ subst Inv (sym (fail-some o x p e)) (record {
    up = with_reset p.up p.caller_reset (reset x e) up;
    down = with_reset p.down p.caller_reset (reset x e) down;
    resets = same;
    pending = λ none_. absurd (ground arith);
    settled = λ y k. inl (other y k, reset y k);
  })
]

weaken :
    (l : Link) (b : Bool) → Good l.copier l ⊎ (Failed l × (b ≡ true)) → Good l.copier l ⊎ Failed l
weaken l b (inl g) = inl g
weaken l b (inr (f, e)) = inr f

open_fate :
    (p : Splicing)
    → (has_returned p.up.copier ≡ false) ⊎ (has_returned p.down.copier ≡ false)
    → (x : Outcome) → Fate p x
    → (x ≢ completed) × (p.caller_reset ≡ true)
open_fate p h x (inl fate) = fate
open_fate p (inl up) x (inr (_, _, u, d)) = absurd (ground arith)
open_fate p (inr down) x (inr (_, _, u, d)) = absurd (ground arith)

-- While a direction runs the outcome is not completed.
running :
    (p : Splicing)
    → Inv p
    → (has_returned p.up.copier ≡ false) ⊎ (has_returned p.down.copier ≡ false)
    → ((x : Outcome) → p.once ≡ some x → p.caller_reset ≡ true)
      × ((x : Outcome) → p.once ≡ some x → x ≢ completed)
running p v h =
    (λ x e. (open_fate p h x (v.settled x e)).1, λ x e. (open_fate p h x (v.settled x e)).0)

up-Inv :
    (r : Link × Option Outcome) (p : Splicing)
    → Inv p
    → has_returned p.up.copier ≡ false
    → Copied r.1 r.0
    → Inv (fail_with r.1 (record p { up = r.0 }))
up-Inv (l, none) p v h g =
    let (reset, other) = running p v (inl h) in
    record {
      up = inl g;
      down = v.down;
      resets = v.resets;
      pending = v.pending;
      settled = λ o e. inl (other o e, reset o e);
    }
up-Inv (l, some o) p v h (pre, ended, f) =
    let (reset, other) = running p v (inl h) in
    fail-Inv o (record p { up = l }) f (inr (pre, ended)) (weaken p.down p.caller_reset v.down)
      v.resets reset other

down-Inv :
    (r : Link × Option Outcome) (p : Splicing)
    → Inv p
    → has_returned p.down.copier ≡ false
    → Copied r.1 r.0
    → Inv (fail_with r.1 (record p { down = r.0 }))
down-Inv (l, none) p v h g =
    let (reset, other) = running p v (inr h) in
    record {
      up = v.up;
      down = inl g;
      resets = v.resets;
      pending = v.pending;
      settled = λ o e. inl (other o e, reset o e);
    }
down-Inv (l, some o) p v h (pre, ended, f) =
    let (reset, other) = running p v (inr h) in
    fail-Inv o (record p { down = l }) f (weaken p.up p.caller_reset v.up) (inr (pre, ended))
      v.resets reset other

limit-Inv : (p : Splicing) → Inv p → Inv (fail limit p)
limit-Inv p v = elim (Option-cases p.once) [
  | inl open_ ↦
      fail-Inv limit p (λ e. cc) (weaken p.up p.caller_reset v.up)
        (weaken p.down p.caller_reset v.down) v.resets (λ x e. absurd (ground arith))
        (λ x e. absurd (ground arith))
  | inr (x, e) ↦ subst Inv (sym (fail-some limit x p e)) v
]

settle-Inv :
    (p : Splicing)
    → Inv p
    → has_returned p.up.copier ≡ true
    → has_returned p.down.copier ≡ true
    → Inv (record p { once = settle_once p.once })
settle-Inv p v u d = record {
  up = v.up;
  down = v.down;
  resets = v.resets;
  pending = λ e. absurd (ground arith);
  settled = λ o e. elim (Option-cases p.once) [
    | inl open_ ↦ let same : completed ≡ o = ground arith in inr (sym same, v.pending open_, u, d)
    | inr (x, k) ↦ v.settled o (ground arith)
  ];
}

still-Good :
    (l : Link) (b : Bool)
    → Good l.copier l ⊎ (Failed l × (b ≡ true))
    → has_returned l.copier ≡ false
    → Good l.copier l
still-Good l b (inl g) h = g
still-Good l b (inr ((pre, ended), e)) h = absurd (ground arith)

step-Inv : (e : Event) (p : Splicing) → Inv p → Inv (step e p)
unfolding step
step-Inv (up_answers a) p v = elim (Bool-cases (has_returned p.up.copier)) [
  | inl through ↦
      let same = copy_from-returned caller_aborted dest_aborted p.up.copier a p.up through in
      subst (λ (r : Link × Option Outcome). Inv (fail_with r.1 (record p { up = r.0 }))) (sym same)
        v
  | inr runs ↦ up-Inv (copy_end caller_aborted dest_aborted a p.up) p v runs (
      copy_from-Copied caller_aborted dest_aborted p.up.copier a p.up (λ e. cc) (λ e. cc) refl
        (still-Good p.up p.caller_reset v.up runs))
]
step-Inv (down_answers a) p v = elim (Bool-cases (has_returned p.down.copier)) [
  | inl through ↦
      let same = copy_from-returned dest_aborted caller_aborted p.down.copier a p.down through in
      subst (λ (r : Link × Option Outcome). Inv (fail_with r.1 (record p { down = r.0 })))
        (sym same) v
  | inr runs ↦ down-Inv (copy_end dest_aborted caller_aborted a p.down) p v runs (
      copy_from-Copied dest_aborted caller_aborted p.down.copier a p.down (λ e. cc) (λ e. cc) refl
        (still-Good p.down p.caller_reset v.down runs))
]
step-Inv limit_fires p v = limit-Inv p v
step-Inv settles p v = elim (Bool-cases (has_returned p.up.copier)) [
  | inr runs ↦ rw (runs, step) v
  | inl up ↦ elim (Bool-cases (has_returned p.down.copier)) [
    | inr runs ↦ rw (up, runs, step) v
    | inl down ↦ rw (up, down, step) (settle-Inv p v up down)
  ]
]

pub run-Inv : (es : List Event) (p : Splicing) → Inv p → Inv (run es p)
unfolding run
run-Inv [] p v = v
run-Inv (e ∷ es) p v = run-Inv es (step e p) (step-Inv e p v)

-- The outcome, once there is one, stays.
step-once : (e : Event) (p : Splicing) (o : Outcome) → p.once ≡ some o → (step e p).once ≡ some o
unfolding step fail
step-once (up_answers a) p o e = ground arith
step-once (down_answers a) p o e = ground arith
step-once limit_fires p o e = ground arith
step-once settles p o e = ground arith

pub run-once :
    (es : List Event) (p : Splicing) (o : Outcome) → p.once ≡ some o → (run es p).once ≡ some o
unfolding run
run-once [] p o e = e
run-once (x ∷ es) p o e = run-once es (step x p) o (step-once x p o e)

-- ===== src/Drain/History.antt =====
-- The count over any history of calls.
use traversal_connector.Common.{
  ℕ, suc, ◌+◌, ◌≤◌, ◌<◌, ◌≡◌, Option, none, some, List, [], ◌∷◌, arith, All, Option-cases, inl, inr,
  if◌then◌else◌,
}
use traversal_connector.Drain.{Tracker, add, Outcome, returned, done, drain}

pub data Call : Type 0 where
  adds : ℕ → Call
  ends drains : Call

-- `none` is a panic.
abbrev pub settled : Outcome → Option Tracker
settled (returned u) = some u
settled _ = none

abbrev pub call : Call → Tracker → Option Tracker
call (adds limit) t = some (add limit t).0
call ends t = settled (done t)
call drains t = some (drain t)

unfoldable pub run : List Call → Tracker → Option Tracker
run [] t = some t
run (c ∷ cs) t = elim (call c t) [ none ↦ none | some u ↦ run cs u ]

-- The calls of a history that changed the count: the admitted `Add`s, and the `Done`s.
abbrev pub admits : Call → Tracker → ℕ
admits (adds limit) t = if (add limit t).1 then 1 else 0
admits _ t = 0

pub admitted : List Call → Tracker → ℕ
admitted [] t = 0
admitted (c ∷ cs) t = elim (call c t) [ none ↦ 0 | some u ↦ admits c t + admitted cs u ]

pub finished : List Call → ℕ
finished [] = 0
finished (ends ∷ cs) = suc (finished cs)
finished (c ∷ cs) = finished cs

call-count :
    (c : Call) (t u : Tracker) → call c t ≡ some u → u.n + finished (c ∷ []) ≡ t.n + admits c t
unfolding add done drain finished
call-count (adds limit) t u h = ground arith
call-count ends t u h = ground arith
call-count drains t u h = ground arith

finished-cons : (c : Call) (cs : List Call) → finished (c ∷ cs) ≡ finished (c ∷ []) + finished cs
unfolding finished
finished-cons (adds limit) cs = omega arith
finished-cons ends cs = omega arith
finished-cons drains cs = omega arith

-- A history that does not panic leaves in flight what it admitted and did not end, whatever was
-- in flight before.
pub run_counts :
    (cs : List Call) (t u : Tracker) → run cs t ≡ some u → u.n + finished cs ≡ t.n + admitted cs t
unfolding run admitted
run_counts [] t u h = unfold finished in ground arith
run_counts (c ∷ cs) t u h = elim (Option-cases (call c t)) [
  | inl e ↦ absurd (ground arith)
  | inr (s, e) ↦
      let rest = run_counts cs s u (ground arith) in
      rw (e, admitted) (omega (arith, rest, call-count c t s e, finished-cons c cs))
]

abbrev pub IsCapped : ℕ → Call → Type 0
IsCapped cap (adds limit) = limit ≡ cap
IsCapped cap _ = Unit

call_capped :
    (cap : ℕ) (c : Call) (t u : Tracker)
    → 0 < cap
    → IsCapped cap c
    → t.n ≤ cap
    → call c t ≡ some u
    → u.n ≤ cap
unfolding add done drain
call_capped cap (adds limit) t u p a h e = ground arith
call_capped cap ends t u p a h e = ground arith
call_capped cap drains t u p a h e = ground arith

-- Under one positive limit, no history takes the count above it.
pub run_capped :
    (cap : ℕ) (cs : List Call) (t u : Tracker)
    → 0 < cap
    → All (IsCapped cap) cs
    → t.n ≤ cap
    → run cs t ≡ some u
    → u.n ≤ cap
unfolding run
run_capped cap [] t u p a h e = ground arith
run_capped cap (c ∷ cs) t u p (a, as_) h e = elim (Option-cases (call c t)) [
  | inl f ↦ absurd (ground arith)
  | inr (s, f) ↦ run_capped cap cs s u p as_ (call_capped cap c t s p a h f) (ground arith)
]

-- ===== src/Halfconn/Settled.antt =====
-- How a splice ends.
use traversal_connector.Common.{
  ℕ, ◌≡◌, refl, ◌∙◌, ◌⊎◌, inl, inr, ◌≢◌, Bool, true, false, none, some, List, [], length, arith,
  append-nil,
}
use traversal_connector.Halfconn.{
  Outcome, completed, Copier, reading, closing, returned, writing, Link, Splicing, start,
  has_returned, Event, run,
}
use traversal_connector.Halfconn.Copied.{Good, IsPrefix}
use traversal_connector.Halfconn.Invariant.{Failed, Inv, start-Inv, run-Inv, run-once}

-- A direction that ended cleanly: it took all that was given, counted it, and its end was passed on.
pub record Whole (l : Link) : Type 0 where
  pub counted : ℕ
  pub ended : l.copier ≡ returned counted
  pub all_taken : l.taken ≡ l.given
  pub count : counted ≡ length l.taken
  pub passed_on : l.closed ≡ true

-- How far a splice is.
pub record Settles (p : Splicing) : Type 0 where
  pub up_prefix : IsPrefix p.up.taken p.up.given
  pub down_prefix : IsPrefix p.down.taken p.down.given
  pub clean :
      p.once ≡ some completed
      → Whole p.up × Whole p.down × (p.caller_reset ≡ false) × (p.dest_reset ≡ false)
  pub broken_off :
      (o : Outcome)
      → p.once ≡ some o
      → o ≢ completed
      → (p.caller_reset ≡ true) × (p.dest_reset ≡ true)
  pub unsettled : p.once ≡ none → (p.caller_reset ≡ false) × (p.dest_reset ≡ false)

Good-IsPrefix : (c : Copier) (l : Link) → Good c l → IsPrefix l.taken l.given
Good-IsPrefix (reading n) l (e, k) = ([], append-nil l.taken ∙ e)
Good-IsPrefix (closing n) l (e, k) = ([], append-nil l.taken ∙ e)
Good-IsPrefix (writing bytes status n) l (e, k) = (bytes, e)
Good-IsPrefix (returned n) l (e, k, c) = ([], append-nil l.taken ∙ e)

link-IsPrefix :
    (l : Link) (b : Bool) → Good l.copier l ⊎ (Failed l × (b ≡ true)) → IsPrefix l.taken l.given
link-IsPrefix l b (inl g) = Good-IsPrefix l.copier l g
link-IsPrefix l b (inr ((pre, ended), e)) = pre

link-Whole :
    (l : Link) (b : Bool) (c : Copier)
    → l.copier ≡ c
    → has_returned c ≡ true
    → b ≡ false
    → Good c l ⊎ (Failed l × (b ≡ true))
    → Whole l
link-Whole l b (reading n) q h z v = cc
link-Whole l b (closing n) q h z v = cc
link-Whole l b (writing bytes status n) q h z v = cc
link-Whole l b (returned n) q h z (inl (e, k, c)) = record {
  counted = n;
  ended = q;
  all_taken = e;
  count = k;
  passed_on = c;
}
link-Whole l b (returned n) q h z (inr (f, e)) = absurd (ground arith)

Inv-Settles : (p : Splicing) → Inv p → Settles p
Inv-Settles p v = record {
  up_prefix = link-IsPrefix p.up p.caller_reset v.up;
  down_prefix = link-IsPrefix p.down p.caller_reset v.down;
  clean = λ e. elim (v.settled completed e) [
    | inl (other, _) ↦ absurd (other refl)
    | inr (_, z, u, d) ↦ (
      link-Whole p.up p.caller_reset p.up.copier refl u z v.up,
      link-Whole p.down p.caller_reset p.down.copier refl d z v.down,
      z,
      v.resets ∙ z,
    )
  ];
  broken_off = λ o e other. elim (v.settled o e) [
    | inl (_, r) ↦ (r, v.resets ∙ r)
    | inr (same, _, _, _) ↦ absurd (other same)
  ];
  unsettled = λ e. (v.pending e, v.resets ∙ v.pending e);
}

-- In any order of the answers of the ends and of the timers, what an end has taken are the first
-- of the bytes that the other has given; if the outcome is completed, each has taken all of them,
-- every byte counted, and the end of them, and neither was aborted; with any other outcome both
-- were aborted, and with none yet neither was; and what comes later does not change an outcome.
pub run-Settles :
    (es later : List Event)
    → Settles (run es start)
      × ((o : Outcome) → (run es start).once ≡ some o → (run later (run es start)).once ≡ some o)
run-Settles es later =
    (Inv-Settles (run es start) (run-Inv es start start-Inv), run-once later (run es start))

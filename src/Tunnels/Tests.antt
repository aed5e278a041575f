-- ===== src/Tunnels/Tests.antt =====
-- Witnesses of the theorems on tunnels, with a backoff that grows by a second, and tests.
use traversal_connector.Common.{ℕ, suc, ◌*◌, ◌≡◌, refl, true, false, List, [], ◌∷◌}
use traversal_connector.Common.Int.{ℤ, pos, ◌+ℤ◌}
use traversal_connector.Tunnels.{
  is_ready, tracked, failed, connected, serving, waiting, Happening, asked_to_replace, closes,
  sees_replaced, Input, Event, moves, old_closes, stops, ends, advance, advance_at, step, run,
  start,
}
use traversal_connector.Tunnels.Counted.{run_counted}
use traversal_connector.Tunnels.Later.{run_lasts}

abbrev restart : ℕ → ℕ
restart r = 0

abbrev grow : ℕ → ℕ × ℤ
grow r = (suc r, pos (r * 1000000000))

abbrev up_for : Happening → Input
up_for h = record { dialed = connected; happens = h; elapsed = pos 1 }

abbrev no_input : Input
no_input = record { dialed = failed; happens = closes; elapsed = pos 1 }

-- Both loops dial, one of them in vain; the tunnel of the other is replaced, by one beside it.
abbrev morning : List Event
morning =
    moves 0 no_input
    ∷ moves 1 no_input
    ∷ moves 1 no_input
    ∷ moves 0 (up_for closes)
    ∷ moves 0 (up_for asked_to_replace)
    ∷ moves 0 (up_for sees_replaced)
    ∷ moves 0 no_input
    ∷ moves 0 no_input
    ∷ moves 0 (up_for closes)
    ∷ []

-- The connector stops while a loop waits, and then the tunnels close.
abbrev evening : List Event
evening = stops ∷ moves 1 no_input ∷ moves 1 no_input ∷ old_closes ∷ ends ∷ moves 0 no_input ∷ []

morning_test : run restart grow morning (start 0 2) ≡ record {
  counters = record { up = pos 2; ever_up = true; stopping = false; ended = false };
  old = 1;
  holders = serving 0 (record { replaced = false; closed = false }) ∷ waiting 1 (pos 0) ∷ [];
}
unfolding run step advance advance_at tracked ◌+ℤ◌
morning_test = refl

run_counted_example : (run restart grow morning (start 0 2)).counters.up ≡ pos 2
unfolding run step advance advance_at tracked ◌+ℤ◌
run_counted_example = (run_counted restart grow morning 0 2).0

run_lasts_example :
    is_ready (run restart grow evening (run restart grow morning (start 0 2))).counters ≡ true
unfolding run step advance advance_at tracked ◌+ℤ◌
run_lasts_example = (run_lasts restart grow morning evening 0 2).0 refl

-- ===== src/Drain/Tests.antt =====
-- Witnesses of the theorems on the count of work in flight.
use traversal_connector.Common.{
  ℕ, ◌+◌, ◌≤◌, ◌≡◌, refl, true, false, some, List, [], ◌∷◌, arith, ◌==◌, if◌then◌else◌,
}
use traversal_connector.Drain.{
  Tracker, zero_tracker, add, returned, close_idle, done, looking, drained, blocked, look, wake,
}
use traversal_connector.Drain.Invariant.{zero_tracker-Inv, add-Inv, done_returns}
use traversal_connector.Drain.Wait.{Step, Reach, initial, wait_wakes}
use traversal_connector.Drain.History.{
  Call, adds, ends, run, admitted, finished, run_counts, run_capped,
}

abbrev one_stream : Tracker
one_stream = record { draining = false; n = 1; idle = some 0; makes = 1; closed = λ _. false }

abbrev idle_again : Tracker
idle_again = record one_stream { n = 0; closed = λ d. if d == 0 then true else false }

done_returns_example :
    (u : Tracker) × (done (add 0 zero_tracker).0 ≡ returned u)
    × (u.n + 1 ≡ (add 0 zero_tracker).0.n)
    × (u.idle ≡ (add 0 zero_tracker).0.idle)
    × ((c : ℕ) → (add 0 zero_tracker).0.idle ≡ some c → u.closed c ≡ (u.n == 0))
unfolding add
done_returns_example =
    done_returns (add 0 zero_tracker).0 (add-Inv 0 zero_tracker zero_tracker-Inv) (omega arith)

-- A stream opens, the waiter blocks, and the stream ends.
reached : Reach initial (record { tracker = idle_again; waiter = blocked (some 0) })
unfolding add done close_idle look
reached =
    let opened : Step initial (record initial { tracker = one_stream }) = Step.adds 0 refl in
    let waits : Step (record initial { tracker = one_stream })
        (record { tracker = one_stream; waiter = blocked (some 0) }) =
      Step.looks refl refl in
    Reach.next (Reach.next (Reach.next Reach.here opened) waits) (Step.ends idle_again refl refl)

wait_wakes_example : (wake idle_again (some 0) ≡ looking) × (look idle_again ≡ drained)
wait_wakes_example = wait_wakes (some 0) reached refl refl

abbrev history : List Call
history = adds 1 ∷ adds 1 ∷ ends ∷ adds 1 ∷ []

abbrev after_history : Tracker
after_history = record {
  draining = false;
  n = 1;
  idle = some 1;
  makes = 2;
  closed = λ d. if d == 0 then true else false;
}

run_test : run history zero_tracker ≡ some after_history
unfolding run add done close_idle
run_test = refl

run_counts_example : 1 + finished history ≡ 0 + admitted history zero_tracker
run_counts_example = run_counts history zero_tracker after_history run_test

run_capped_example : 1 ≤ 1
run_capped_example =
    run_capped 1 history zero_tracker after_history (omega arith) (refl, (refl, (tt, (refl, tt))))
      (omega arith) run_test

-- ===== src/Halfconn/Tests.antt =====
-- A splice in which the caller asks, the destination answers, and both end.
use traversal_connector.Common.{◌≡◌, refl, true, some, List, [], ◌∷◌, codes}
use traversal_connector.Halfconn.{
  Outcome, completed, dest_aborted, more, eof, gives, takes, refuses, closes, Event, up_answers,
  down_answers, limit_fires, settles, start, run, fail, copy_from, after_read,
}
use traversal_connector.Halfconn.Settled.{Settles, run-Settles}

abbrev asked : List Event
asked =
    up_answers (gives (codes "get") eof)
    ∷ down_answers (gives (codes "ok") more)
    ∷ up_answers takes
    ∷ down_answers takes
    ∷ up_answers (closes true)
    ∷ down_answers (gives [] eof)
    ∷ down_answers (closes true)
    ∷ settles
    ∷ []

completed_test : (run asked start).once ≡ some completed
unfolding run fail copy_from after_read
completed_test = refl

reset_test :
    (run (up_answers (gives (codes "get") more) ∷ up_answers (refuses 1) ∷ []) start).once
    ≡ some dest_aborted
unfolding run fail copy_from after_read
reset_test = refl

run-Settles_example :
    Settles (run asked start)
    × ((o : Outcome)
        → (run asked start).once ≡ some o
        → (run (limit_fires ∷ []) (run asked start)).once ≡ some o)
run-Settles_example = run-Settles asked (limit_fires ∷ [])

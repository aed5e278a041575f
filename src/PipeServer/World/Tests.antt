-- ===== src/PipeServer/World/Tests.antt =====
-- Runs of the handlers of a pipe server, at the sample library.
use traversal_connector.Common.{◌≤◌, ◌<◌, ◌≡◌, refl, true, none, some, List, [], ◌∷◌, All, codes}
use traversal_connector.Common.Int.{ℤ, pos}
use traversal_connector.Drain.{zero_tracker, drain}
use traversal_connector.RawPipe.{draining}
use traversal_connector.Capability.Opens.{no_opens}
use traversal_connector.Capability.Verify.{heap_of, Verifier}
use traversal_connector.Capability.Sample.{sample_library}
use traversal_connector.PipeServer.{Request, refused, Server, advance, method_connect}
use traversal_connector.PipeServer.World.{
  Event, arrives, runs, drains, World, fresh, step, run, advance_at,
}
use traversal_connector.PipeServer.World.Slots.{
  slots, Balanced, fresh-Balanced, run-Balanced, step-Balanced, run_balanced,
}
use traversal_connector.PipeServer.World.Vetted.{Vetted, CameIn, run-Vetted}
use traversal_connector.PipeServer.World.Drained.{pasts, run_drained}
use traversal_connector.PipeServer.World.Gate.{Allowed, gate, step-Allowed}

abbrev verifier : Verifier sample_library
unfolding sample_library
verifier = record {
  trust = record {
    keys = λ kid. some 7;
    chains = none;
    issuer = codes "traversal-raw-tunnel/prod";
  };
  subject = codes "integration-proxy";
}

abbrev server : Server sample_library
server = record { connector_id = codes "c1"; verifier = verifier; max_pipes = 2; tunnels = 1 }

abbrev to_db : Request
to_db = record {
  method = method_connect;
  host = codes "db.internal:5432";
  capability = codes "h.p.s";
}

-- Second 200.
abbrev at_200 : ℤ
at_200 = pos 200_000_000_000

-- One pipe is served, and ends after the connector began to drain.
abbrev one_pipe : List Event
one_pipe =
    arrives to_db
    ∷ runs 0 at_200
    ∷ runs 0 at_200
    ∷ runs 0 at_200
    ∷ drains
    ∷ arrives to_db
    ∷ runs 0 at_200
    ∷ []

run_balanced_example :
    (w : World sample_library) × (run sample_library server one_pipe (fresh sample_library)
      ≡ some w)
    × (w.pipes.n ≡ slots w.handlers)
    × (0 < 2 → w.pipes.n ≤ 2)
run_balanced_example = run_balanced sample_library server one_pipe

abbrev after :
    (w : World sample_library) × (run sample_library server one_pipe (fresh sample_library)
      ≡ some w)
    × Balanced sample_library server w
after =
    run-Balanced sample_library server one_pipe (fresh sample_library)
      (fresh-Balanced sample_library server)

run-Vetted_example : All (Vetted sample_library server (CameIn one_pipe)) after.0.handlers
run-Vetted_example = run-Vetted sample_library server one_pipe after.0 after.1

abbrev then_runs :
    (w : World sample_library) × (step sample_library server (runs 1 at_200) after.0 ≡ some w)
    × Balanced sample_library server w
then_runs = step-Balanced sample_library server (runs 1 at_200) after.0 after.2

step-Allowed_example :
    Allowed 2
      (slots after.0.handlers)
      (gate sample_library server after.0)
      (gate sample_library server then_runs.0)
step-Allowed_example =
    step-Allowed sample_library server (runs 1 at_200) after.0 then_runs.0 after.2 then_runs.1

abbrev drained_world : World sample_library
drained_world = record {
  pipes = drain zero_tracker;
  opens = no_opens (heap_of sample_library);
  handlers = [];
}

abbrev refusing_world : World sample_library
refusing_world = record drained_world { handlers = refused draining ∷ [] }

refusing_test :
    run sample_library server (arrives to_db ∷ runs 0 at_200 ∷ []) drained_world
    ≡ some refusing_world
unfolding run step advance_at drain advance
refusing_test = refl

drained_test : drained_world.pipes.draining ≡ true
unfolding drain
drained_test = refl

run_drained_example : (refusing_world.pipes.draining ≡ true) × (pasts (refused draining ∷ []) ≤ 0)
run_drained_example =
    run_drained sample_library server (arrives to_db ∷ runs 0 at_200 ∷ []) drained_world
      refusing_world drained_test refusing_test

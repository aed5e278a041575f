-- ===== src/PipeServer/World.antt =====
-- The handlers of a pipe server, on all its tunnels, in any interleaving of their segments.
pub mod Slots
mod Tests
pub mod Gate
pub mod Drained
pub mod Vetted
use traversal_connector.Common.{ℕ, zero, suc, ◌+◌, Option, none, some, List, [], ◌∷◌}
use traversal_connector.Common.Int.{ℤ}
use traversal_connector.Drain.{Tracker, zero_tracker, drain}
use traversal_connector.Capability.Opens.{Opens, no_opens}
use traversal_connector.Capability.Verify.{heap_of, Library}
use traversal_connector.PipeServer.{Request, Stage, arrived, Server, advance}

-- A request comes in, the next segment of a handler runs at a time, or the connector drains.
pub data Event : Type 0 where
  arrives : Request → Event
  runs : ℕ → ℤ → Event
  drains : Event

module _ (lib : Library) where
  pub record World : Type 0 where
    pub pipes : Tracker
    pub opens : Opens (heap_of lib)
    pub handlers : List Stage

  pub fresh : World
  fresh = record { pipes = zero_tracker; opens = no_opens (heap_of lib); handlers = [] }

  -- The handler with that number runs; no handler has a number out of range.
  pub advance_at :
      Server lib
      → ℕ
      → ℤ
      → Tracker
      → Opens (heap_of lib)
      → List Stage
      → Option (Tracker × Opens (heap_of lib) × List Stage)
  advance_at s i now t o [] = some (t, o, [])
  advance_at s zero now t o (h ∷ hs) = elim (advance lib s now t o h) [
    | none ↦ none
    | some (t', o', h') ↦ some (t', o', h' ∷ hs)
  ]
  advance_at s (suc i) now t o (h ∷ hs) = elim (advance_at s i now t o hs) [
    | none ↦ none
    | some (t', o', hs') ↦ some (t', o', h ∷ hs')
  ]

  pub step : Server lib → Event → World → Option World
  step s (arrives r) w = some (record w { handlers = arrived r ∷ w.handlers })
  step s (runs i now) w = elim (advance_at s i now w.pipes w.opens w.handlers) [
    | none ↦ none
    | some (t, o, hs) ↦ some (record { pipes = t; opens = o; handlers = hs })
  ]
  step s drains w = some (record w { pipes = drain w.pipes })

  pub run : Server lib → List Event → World → Option World
  run s [] w = some w
  run s (e ∷ es) w = elim (step s e w) [ none ↦ none | some w' ↦ run s es w' ]

-- ===== src/PipeServer/World/Drained.antt =====
-- A draining pipe server takes no new pipe.
use traversal_connector.Common.{
  ℕ, zero, suc, ◌+◌, ◌≤◌, ◌≡◌, Bool, true, false, some, List, [], ◌∷◌, arith, Option-cases, inl,
  inr, Text,
}
use traversal_connector.Common.Int.{ℤ}
use traversal_connector.Drain.{Tracker, drain, add}
use traversal_connector.Drain.Invariant.{add-facts, done-draining}
use traversal_connector.RawPipe.{Result, ok, err}
use traversal_connector.Capability.{Claims}
use traversal_connector.Capability.Opens.{Opens}
use traversal_connector.Capability.Verify.{heap_of, Library, verify}
use traversal_connector.PipeServer.{
  Stage, arrived, checked, cleared, serving, refused, finished, Server, advance, on_claims, on_slot,
}
use traversal_connector.PipeServer.World.{
  Event, arrives, runs, drains, World, advance_at, step, run,
}

-- A handler that looked before the drain and has not ended.
abbrev pub past : Stage → ℕ
past (checked r host port) = 1
past (cleared url c) = 1
past (serving url c) = 1
past _ = 0

abbrev pub pasts : List Stage → ℕ
pasts [] = 0
pasts (h ∷ hs) = past h + pasts hs

module _ (lib : Library) (s : Server lib) where
  claims-past : (host : Text) (port : ℕ) (g : Result Claims) → past (on_claims lib host port g) ≤ 1
  unfolding on_claims
  claims-past host port (err reason) = omega arith
  claims-past host port (ok c) = ground arith

  taken-past : (url : Text) (c : Claims) (b : Bool) → past (on_slot lib url c b) ≤ 1
  taken-past url c true = omega arith
  taken-past url c false = omega arith

  advance-past :
      (now : ℤ) (t t' : Tracker) (o o' : Opens (heap_of lib)) (h h' : Stage)
      → t.draining ≡ true
      → advance lib s now t o h ≡ some (t', o', h')
      → (t'.draining ≡ true) × (past h' ≤ past h)
  unfolding advance
  advance-past now t t' o o' (arrived r) h' d e = (ground arith, ground arith)
  advance-past now t t' o o' (checked r host port) h' d e =
      let g = (verify lib s.verifier r.capability s.connector_id host port now o).1 in
      (ground arith, ground (arith, claims-past host port g))
  advance-past now t t' o o' (cleared url c) h' d e =
      let (_, stays, _) = add-facts s.max_pipes t in
      (ground arith, ground (arith, taken-past url c (add s.max_pipes t).1))
  advance-past now t t' o o' (serving url c) h' d e =
      (ground (arith, done-draining t t'), ground arith)
  advance-past now t t' o o' (refused reason) h' d e = (ground arith, ground arith)
  advance-past now t t' o o' finished h' d e = (ground arith, ground arith)

  advance_at-past :
      (i : ℕ) (now : ℤ) (t t' : Tracker) (o o' : Opens (heap_of lib)) (hs hs' : List Stage)
      → t.draining ≡ true
      → advance_at lib s i now t o hs ≡ some (t', o', hs')
      → (t'.draining ≡ true) × (pasts hs' ≤ pasts hs)
  unfolding advance_at
  advance_at-past i now t t' o o' [] hs' d e = (ground arith, ground arith)
  advance_at-past zero now t t' o o' (h ∷ hs) hs' d e =
      elim (Option-cases (advance lib s now t o h)) [
        | inl stopped ↦ absurd (ground arith)
        | inr ((u, p, h'), moved) ↦
            let (still, fewer) = advance-past now t u o p h h' d moved in
            (ground arith, ground arith)
      ]
  advance_at-past (suc i) now t t' o o' (h ∷ hs) hs' d e =
      elim (Option-cases (advance_at lib s i now t o hs)) [
        | inl stopped ↦ absurd (ground arith)
        | inr ((u, p, ks), moved) ↦
            let (still, fewer) = advance_at-past i now t u o p hs ks d moved in
            (ground arith, ground arith)
      ]

  step-past :
      (x : Event) (w w' : World lib)
      → w.pipes.draining ≡ true
      → step lib s x w ≡ some w'
      → (w'.pipes.draining ≡ true) × (pasts w'.handlers ≤ pasts w.handlers)
  unfolding step drain
  step-past (arrives r) w w' d e = (ground arith, ground arith)
  step-past (runs i now) w w' d e =
      elim (Option-cases (advance_at lib s i now w.pipes w.opens w.handlers)) [
        | inl stopped ↦ absurd (ground arith)
        | inr ((t, o, hs), moved) ↦
            let (still, fewer) = advance_at-past i now w.pipes t w.opens o w.handlers hs d moved in
            (ground arith, ground arith)
      ]
  step-past drains w w' d e = (ground arith, ground arith)

  -- Once the connector drains it drains for good, and no interleaving of anything that comes in
  -- makes more handlers hold a pipe or go on to one than there were: those that looked before.
  pub run_drained :
      (es : List Event) (w w' : World lib)
      → w.pipes.draining ≡ true
      → run lib s es w ≡ some w'
      → (w'.pipes.draining ≡ true) × (pasts w'.handlers ≤ pasts w.handlers)
  unfolding run
  run_drained [] w w' d e = (ground arith, ground arith)
  run_drained (x ∷ es) w w' d e = elim (Option-cases (step lib s x w)) [
    | inl stopped ↦ absurd (ground arith)
    | inr (u, stepped) ↦
        let (still, fewer) = step-past x w u d stepped in
        let (on, fewest) = run_drained es u w' still (ground arith) in
        (on, omega (arith, fewer, fewest))
  ]

-- ===== src/PipeServer/World/Slots.antt =====
-- The pipes in flight are the handlers that serve one.
use traversal_connector.Common.{
  ℕ, zero, suc, ◌+◌, ◌≤◌, ◌<◌, ◌≡◌, refl, Bool, true, false, some, List, [], ◌∷◌, arith,
  if◌then◌else◌, Text,
}
use traversal_connector.Common.Int.{ℤ}
use traversal_connector.Drain.{Tracker, add, drain}
use traversal_connector.Drain.Invariant.{
  Inv, zero_tracker-Inv, add-Inv, done-Inv, drain-Inv, done_returns, add-facts, done-draining,
}
use traversal_connector.Capability.{Claims}
use traversal_connector.RawPipe.{Result, ok, err}
use traversal_connector.Capability.Opens.{Opens}
use traversal_connector.Capability.Verify.{heap_of, Library}
use traversal_connector.PipeServer.{
  Request, Stage, arrived, checked, cleared, serving, refused, finished, Server, advance, on_claims,
  on_destination, destination, on_slot,
}
use traversal_connector.PipeServer.World.{
  Event, arrives, runs, drains, World, fresh, advance_at, step, run,
}

-- The slots that a handler holds: a pipe that is served holds one until its Done.
abbrev pub slot : Stage → ℕ
slot (serving url c) = 1
slot _ = 0

abbrev pub slots : List Stage → ℕ
slots [] = 0
slots (h ∷ hs) = slot h + slots hs

-- How one segment moves the tracker, when the handlers it is about held `before` and hold `after`.
pub record Moves (limit : ℕ) (t t' : Tracker) (before after : ℕ) : Type 0 where
  pub inv : Inv t'
  pub count : t'.n + before ≡ t.n + after
  pub cap : 0 < limit → t.n ≤ limit → t'.n ≤ limit
  pub stays : t'.draining ≡ t.draining

module _ (lib : Library) (s : Server lib) where
  still :
      (t : Tracker)
      → Inv t
      → (before after : ℕ) → before ≡ after
      → Moves s.max_pipes t t before after
  still t v before after e = record { inv = v; count = ground arith; cap = λ p h. h; stays = refl }

  destination-slot : (r : Request) (d : Result (Text × ℕ)) → 0 ≡ slot (on_destination lib r d)
  destination-slot r (err reason) = refl
  destination-slot r (ok (host, port)) = refl

  claims-slot : (host : Text) (port : ℕ) (g : Result Claims) → 0 ≡ slot (on_claims lib host port g)
  unfolding on_claims
  claims-slot host port (err reason) = refl
  claims-slot host port (ok c) = ground arith

  taken-slot :
      (url : Text) (c : Claims) (b : Bool) → slot (on_slot lib url c b) ≡ (if b then 1 else 0)
  taken-slot url c true = refl
  taken-slot url c false = refl

  pub advance-Moves :
      (now : ℤ) (t : Tracker) (o : Opens (heap_of lib)) (h : Stage)
      → Inv t
      → slot h ≤ t.n
      → (t' : Tracker) × (o' : Opens (heap_of lib)) × (h' : Stage) × (advance lib s now t o h
          ≡ some (t', o', h'))
        × Moves s.max_pipes t t' (slot h) (slot h')
  unfolding advance
  advance-Moves now t o (arrived r) v l =
      (t, o, _, refl, still t v 0 _ (destination-slot r (destination lib t.draining r)))
  advance-Moves now t o (checked r host port) v l =
      (t, _, _, refl, still t v 0 _ (claims-slot host port _))
  advance-Moves now t o (cleared url c) v l =
      let (counts, stays, cap) = add-facts s.max_pipes t in
      (
        _,
        o,
        _,
        refl,
        record {
          inv = add-Inv s.max_pipes t v;
          count = omega (arith, counts, taken-slot url c (add s.max_pipes t).1);
          cap = cap;
          stays = stays;
        },
      )
  advance-Moves now t o (serving url c) v l =
      let (t', e, count, _, _) = done_returns t v (omega (arith, l)) in
      (
        t',
        o,
        finished,
        rw (e, advance) refl,
        record {
          inv = done-Inv t t' v e;
          count = omega (arith, count);
          cap = λ p h. omega (arith, count, h);
          stays = done-draining t t' e;
        },
      )
  advance-Moves now t o (refused reason) v l = (t, o, refused reason, refl, still t v 0 0 refl)
  advance-Moves now t o finished v l = (t, o, finished, refl, still t v 0 0 refl)

  pub advance_at-Moves :
      (i : ℕ) (now : ℤ) (t : Tracker) (o : Opens (heap_of lib)) (hs : List Stage)
      → Inv t
      → slots hs ≤ t.n
      → (t' : Tracker) × (o' : Opens (heap_of lib)) × (hs' : List Stage) × (advance_at lib s i now t
            o hs
          ≡ some (t', o', hs'))
        × Moves s.max_pipes t t' (slots hs) (slots hs')
  unfolding advance_at
  advance_at-Moves i now t o [] v l = (t, o, [], refl, still t v 0 0 refl)
  advance_at-Moves zero now t o (h ∷ hs) v l =
      let (t', o', h', e, m) = advance-Moves now t o h v (omega (arith, l)) in
      (
        t',
        o',
        h' ∷ hs,
        rw (e, advance_at) refl,
        record { inv = m.inv; count = omega (arith, m.count); cap = m.cap; stays = m.stays },
      )
  advance_at-Moves (suc i) now t o (h ∷ hs) v l =
      let (t', o', hs', e, m) = advance_at-Moves i now t o hs v (omega (arith, l)) in
      (
        t',
        o',
        h ∷ hs',
        rw (e, advance_at) refl,
        record { inv = m.inv; count = omega (arith, m.count); cap = m.cap; stays = m.stays },
      )

  -- The tracker counts the handlers that serve a pipe, and no more than the cap.
  pub record Balanced (w : World lib) : Type 0 where
    pub inv : Inv w.pipes
    pub count : w.pipes.n ≡ slots w.handlers
    pub cap : 0 < s.max_pipes → w.pipes.n ≤ s.max_pipes

  pub fresh-Balanced : Balanced (fresh lib)
  unfolding fresh
  fresh-Balanced = record { inv = zero_tracker-Inv; count = refl; cap = λ p. ground arith }

  pub step-Balanced :
      (e : Event) (w : World lib)
      → Balanced w
      → (w' : World lib) × (step lib s e w ≡ some w') × Balanced w'
  unfolding step drain
  step-Balanced (arrives r) w b =
      (_, refl, record { inv = b.inv; count = omega (arith, b.count); cap = b.cap })
  step-Balanced (runs i now) w b =
      let (t', o', hs', e, m) =
        advance_at-Moves i now w.pipes w.opens w.handlers b.inv (omega (arith, b.count)) in
      (
        record { pipes = t'; opens = o'; handlers = hs' },
        rw (e, step) refl,
        record {
          inv = m.inv;
          count = omega (arith, m.count, b.count);
          cap = λ p. m.cap p (b.cap p);
        },
      )
  step-Balanced drains w b =
      (_, refl, record { inv = drain-Inv w.pipes b.inv; count = b.count; cap = b.cap })

  pub run-Balanced :
      (es : List Event) (w : World lib)
      → Balanced w
      → (w' : World lib) × (run lib s es w ≡ some w') × Balanced w'
  unfolding run
  run-Balanced [] w b = (w, refl, b)
  run-Balanced (e ∷ es) w b =
      let (w', stepped, b') = step-Balanced e w b in
      let (w'', ran, b'') = run-Balanced es w' b' in (w'', rw (stepped, run) ran, b'')

  -- Whatever requests come in on the tunnels, and however their handlers and a drain interleave, no
  -- Done panics, and at every point the tracker counts exactly the handlers that serve a pipe,
  -- which a positive cap bounds.
  pub run_balanced :
      (es : List Event)
      → (w : World lib) × (run lib s es (fresh lib) ≡ some w)
        × (w.pipes.n ≡ slots w.handlers)
        × (0 < s.max_pipes → w.pipes.n ≤ s.max_pipes)
  run_balanced es =
      let (w, ran, b) = run-Balanced es (fresh lib) fresh-Balanced in (w, ran, b.count, b.cap)

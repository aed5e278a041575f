-- ===== src/PipeServer/World/Gate.antt =====
-- What the pipe server promises of its pipes, as a machine of three numbers, and that the server
-- is one.
use traversal_connector.Common.{
  ℕ, zero, suc, ◌+◌, ◌<◌, ◌≡◌, refl, subst, sym, ◌⊎◌, inl, inr, Bool, true, false, Option, some,
  List, [], ◌∷◌, arith, Option-cases, Text,
}
use traversal_connector.Common.Int.{ℤ}
use traversal_connector.Drain.{Tracker, drain, add}
use traversal_connector.Drain.Invariant.{add-facts, add-admits, done-draining}
use traversal_connector.RawPipe.{Result, ok, err}
use traversal_connector.Capability.{Claims}
use traversal_connector.Capability.Opens.{Opens}
use traversal_connector.Capability.Verify.{heap_of, Library}
use traversal_connector.PipeServer.{
  Request, Stage, arrived, checked, cleared, serving, refused, finished, Server, advance, on_claims,
  on_destination, destination, on_slot,
}
use traversal_connector.PipeServer.World.{Event, arrives, runs, drains, World, advance_at, step}
use traversal_connector.PipeServer.World.Slots.{slot, slots, Balanced}

pub record Gate : Type 0 where
  pub closed : Bool
  pub waiting : ℕ
  pub used : ℕ

-- One step, under a limit, 0 for none, on the pipes in flight.
pub data Allowed (limit in_flight : ℕ) (g g' : Gate) : Type 0 where
  idles :
      g'.closed ≡ g.closed
      → g'.waiting ≡ g.waiting
      → g'.used ≡ g.used
      → Allowed limit in_flight g g'
  enters :
      g.closed ≡ false
      → g'.closed ≡ false
      → g'.waiting ≡ g.waiting + 1
      → g'.used ≡ g.used
      → Allowed limit in_flight g g'
  leaves :
      g'.closed ≡ g.closed
      → g.waiting ≡ g'.waiting + 1
      → g'.used ≡ g.used
      → Allowed limit in_flight g g'
  takes :
      (limit ≡ 0) ⊎ (in_flight < limit)
      → g'.closed ≡ g.closed
      → g.waiting ≡ g'.waiting + 1
      → g'.used ≡ g.used + 1
      → Allowed limit in_flight g g'
  releases :
      g'.closed ≡ g.closed
      → g'.waiting ≡ g.waiting
      → g.used ≡ g'.used + 1
      → Allowed limit in_flight g g'
  closes :
      g'.closed ≡ true → g'.waiting ≡ g.waiting → g'.used ≡ g.used → Allowed limit in_flight g g'

abbrev pub wait : Stage → ℕ
wait (checked r host port) = 1
wait (cleared url c) = 1
wait _ = 0

abbrev pub waits : List Stage → ℕ
waits [] = 0
waits (h ∷ hs) = wait h + waits hs

abbrev one : Tracker → Stage → Gate
one t h = record { closed = t.draining; waiting = wait h; used = slot h }

abbrev many : Tracker → List Stage → Gate
many t hs = record { closed = t.draining; waiting = waits hs; used = slots hs }

-- What else waits or is used changes nothing.
beside :
    (limit n a b : ℕ) (g g' k k' : Gate)
    → (k.closed ≡ g.closed) × (k.waiting ≡ g.waiting + a) × (k.used ≡ g.used + b)
    → (k'.closed ≡ g'.closed) × (k'.waiting ≡ g'.waiting + a) × (k'.used ≡ g'.used + b)
    → Allowed limit n g g'
    → Allowed limit n k k'
beside limit n a b g g' k k' (x, y, z) (x', y', z') (idles p q r) =
    idles (cc) (omega (arith, y, y', q)) (omega (arith, z, z', r))
beside limit n a b g g' k k' (x, y, z) (x', y', z') (enters o p q r) =
    enters (cc) (cc) (omega (arith, y, y', q)) (omega (arith, z, z', r))
beside limit n a b g g' k k' (x, y, z) (x', y', z') (leaves p q r) =
    leaves (cc) (omega (arith, y, y', q)) (omega (arith, z, z', r))
beside limit n a b g g' k k' (x, y, z) (x', y', z') (takes f p q r) =
    takes f (cc) (omega (arith, y, y', q)) (omega (arith, z, z', r))
beside limit n a b g g' k k' (x, y, z) (x', y', z') (releases p q r) =
    releases (cc) (omega (arith, y, y', q)) (omega (arith, z, z', r))
beside limit n a b g g' k k' (x, y, z) (x', y', z') (closes p q r) =
    closes (cc) (omega (arith, y, y', q)) (omega (arith, z, z', r))

module _ (lib : Library) (s : Server lib) where
  abbrev Fits : Tracker → Tracker → Stage → Stage → Type 0
  Fits t t' h h' = Allowed s.max_pipes t.n (one t h) (one t' h')

  arrived-Fits :
      (t : Tracker) (r : Request) (b : Bool)
      → b ≡ t.draining
      → Fits t t (arrived r) (on_destination lib r (destination lib b r))
  arrived-Fits t r true e = idles refl refl refl
  arrived-Fits t r false e = looked t r (destination lib false r) (sym e)
    where
      looked :
          (t : Tracker) (r : Request) (d : Result (Text × ℕ))
          → t.draining ≡ false
          → Fits t t (arrived r) (on_destination lib r d)
      looked t r (err reason) e = idles refl refl refl
      looked t r (ok (host, port)) e = enters e e (omega arith) refl

  claims-Fits :
      (t : Tracker) (r : Request) (host : Text) (port : ℕ) (g : Result Claims) (h' : Stage)
      → on_claims lib host port g ≡ h'
      → Fits t t (checked r host port) h'
  unfolding on_claims
  claims-Fits t r host port (err reason) h' e =
      subst (Fits t t (checked r host port)) e (leaves refl refl refl)
  claims-Fits t r host port (ok c) (arrived q) e = absurd (ground arith)
  claims-Fits t r host port (ok c) (checked q x y) e = absurd (ground arith)
  claims-Fits t r host port (ok c) (cleared url d) e = idles refl refl refl
  claims-Fits t r host port (ok c) (serving url d) e = absurd (ground arith)
  claims-Fits t r host port (ok c) (refused reason) e = leaves refl refl refl
  claims-Fits t r host port (ok c) finished e = absurd (ground arith)

  slot-Fits :
      (t : Tracker) (url : Text) (c : Claims) (b : Bool)
      → (add s.max_pipes t).1 ≡ b
      → Fits t (add s.max_pipes t).0 (cleared url c) (on_slot lib url c b)
  slot-Fits t url c true e =
      let (count, stays, _) = add-facts s.max_pipes t in
      takes (add-admits s.max_pipes t e) stays refl refl
  slot-Fits t url c false e =
      let (count, stays, _) = add-facts s.max_pipes t in leaves stays refl refl

  carry :
      (t : Tracker) (h : Stage) {a t' : Tracker} {b o' : Opens (heap_of lib)} {c h' : Stage}
      → ◌≡◌ {A = Option (Tracker × Opens (heap_of lib) × Stage)}
          (some (a, b, c))
          (some (t', o', h'))
      → Fits t a h c
      → Fits t t' h h'
  carry t h {a = a} {t' = t'} {c = c} {h' = h'} e f =
      let p : a ≡ t' = ground arith in
      let q : c ≡ h' = ground arith in
      subst (λ (x : Tracker). Fits t x h h') p (subst (λ (x : Stage). Fits t a h x) q f)

  advance-Fits :
      (now : ℤ) (t t' : Tracker) (o o' : Opens (heap_of lib)) (h h' : Stage)
      → advance lib s now t o h ≡ some (t', o', h')
      → Fits t t' h h'
  unfolding advance
  advance-Fits now t t' o o' (arrived r) h' e =
      carry t (arrived r) e (arrived-Fits t r t.draining refl)
  advance-Fits now t t' o o' (checked r host port) h' e =
      carry t (checked r host port) e (claims-Fits t r host port _ _ refl)
  advance-Fits now t t' o o' (cleared url c) h' e =
      carry t (cleared url c) e (slot-Fits t url c (add s.max_pipes t).1 refl)
  advance-Fits now t t' o o' (serving url c) h' e =
      releases (ground (arith, done-draining t t')) (ground arith) (ground arith)
  advance-Fits now t t' o o' (refused reason) h' e =
      carry t (refused reason) e (idles refl refl refl)
  advance-Fits now t t' o o' finished h' e = carry t finished e (idles refl refl refl)

  advance_at-Fits :
      (i : ℕ) (now : ℤ) (t t' : Tracker) (o o' : Opens (heap_of lib)) (hs hs' : List Stage)
      → advance_at lib s i now t o hs ≡ some (t', o', hs')
      → Allowed s.max_pipes t.n (many t hs) (many t' hs')
  unfolding advance_at
  advance_at-Fits i now t t' o o' [] hs' e = idles (ground arith) (ground arith) (ground arith)
  advance_at-Fits zero now t t' o o' (h ∷ hs) hs' e =
      elim (Option-cases (advance lib s now t o h)) [
        | inl stopped ↦ absurd (ground arith)
        | inr ((u, p, h'), stepped) ↦
            let same : (u ≡ t') × (h' ∷ hs ≡ hs') = (ground arith, ground arith) in
            beside s.max_pipes t.n (waits hs) (slots hs) (one t h) (one u h') (many t (h ∷ hs))
              (many t' hs') (refl, refl, refl) (ground arith, ground arith, ground arith)
              (advance-Fits now t u o p h h' stepped)
      ]
  advance_at-Fits (suc i) now t t' o o' (h ∷ hs) hs' e =
      elim (Option-cases (advance_at lib s i now t o hs)) [
        | inl stopped ↦ absurd (ground arith)
        | inr ((u, p, ks), stepped) ↦
            let same : (u ≡ t') × (h ∷ ks ≡ hs') = (ground arith, ground arith) in
            beside s.max_pipes t.n (wait h) (slot h) (many t hs) (many u ks) (many t (h ∷ hs))
              (many t' hs') (refl, omega arith, omega arith)
              (ground arith, ground arith, ground arith)
              (advance_at-Fits i now t u o p hs ks stepped)
      ]

  -- What the gate sees of the server.
  abbrev pub gate : World lib → Gate
  gate w = record { closed = w.pipes.draining; waiting = waits w.handlers; used = slots w.handlers }

  -- Every step of the server is a step of the gate: a handler enters only while it is open, takes
  -- a slot only if it waits and fewer than the limit are used (0 is no limit), and gives it back
  -- once; a drain closes the gate, which no step opens. The tracker has to count the slots, as it
  -- does from the start on.
  pub step-Allowed :
      (x : Event) (w w' : World lib)
      → Balanced lib s w
      → step lib s x w ≡ some w'
      → Allowed s.max_pipes (gate w).used (gate w) (gate w')
  unfolding step drain
  step-Allowed (arrives r) w w' b e = idles (ground arith) (ground arith) (ground arith)
  step-Allowed (runs i now) w w' b e =
      elim (Option-cases (advance_at lib s i now w.pipes w.opens w.handlers)) [
        | inl stopped ↦ absurd (ground arith)
        | inr ((t, o, hs), moved) ↦
            let whole : World lib = record { pipes = t; opens = o; handlers = hs } in
            let same : ◌≡◌ {A = World lib} whole w' = ground arith in
            subst (λ (x : World lib). Allowed s.max_pipes (slots w.handlers) (gate w) (gate x)) same
              (subst (λ (n : ℕ). Allowed s.max_pipes n (gate w) (many t hs)) b.count
                (advance_at-Fits i now w.pipes t w.opens o w.handlers hs moved))
      ]
  step-Allowed drains w w' b e = closes (ground arith) (ground arith) (ground arith)

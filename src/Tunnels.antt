-- ===== src/Tunnels.antt =====
-- internal/pipeserver/tunnels.go: the loops that hold a connector's tunnels, in any interleaving.
pub mod Counted
pub mod Later
mod Tests
use traversal_connector.Common.{
  ℕ, zero, suc, ◌+◌, ◌*◌, ◌^◌, Bool, true, false, not, ◌&&◌, ◌||◌, List, [], ◌∷◌, if◌then◌else◌,
}
use traversal_connector.Common.Int.{ℤ, pos, negsuc, ◌+ℤ◌, ltb_ℤ}

-- The counters of a Tunnels, and whether the context of its tunnels is done.
pub record Tunnels : Type 0 where
  pub up : ℤ
  pub ever_up : Bool
  pub stopping : Bool
  pub ended : Bool

-- Ready, where true is its nil.
abbrev pub is_ready : Tunnels → Bool
is_ready t = ltb_ℤ (pos 0) t.up || t.ever_up

abbrev pub once_up : ℤ → Tunnels → Tunnels
once_up delta t = if ltb_ℤ (pos 0) delta then record t { ever_up = true } else t

-- The store to everUp comes first, and Ready reads both, so that they are one step here.
unfoldable pub tracked : ℤ → Tunnels → Tunnels
tracked delta t = let t' = once_up delta t in record t' { up = t'.up +ℤ delta }

abbrev pub stable_after : ℤ
stable_after = pos (30 * 1000000000)

-- How a dial ended, up to the preface.
pub data Dialed : Type 0 where
  failed no_alpn no_preface connected : Dialed

-- A tunnel of serveOne: whether its channels replaced and closed are closed.
pub record Served : Type 0 where
  pub replaced : Bool
  pub closed : Bool

-- Where a loop of hold is, with its redial backoff.
pub data Holder {ℓ} (R : Type ℓ) : Type ℓ where
  looping : R → Holder R
  dialing : R → Holder R
  serving : R → Served → Holder R
  waiting : R → ℤ → Holder R
  stopped : Holder R

-- What happens to a tunnel: the edge controller asks for a replacement, the connection closes, and
-- the select of serveOne takes one of its channels.
pub data Happening : Type 0 where
  asked_to_replace closes sees_replaced sees_closed : Happening

-- What a loop goes on with, of which it takes what it is at: how its dial ends, or what happens to
-- its tunnel, and the time since `start` when either ends serveOne.
pub record Input : Type 0 where
  pub dialed : Dialed
  pub happens : Happening
  pub elapsed : ℤ

-- The counters, the tunnels that were replaced and still serve, and the loops.
pub record World {ℓ} (R : Type ℓ) : Type ℓ where
  pub counters : Tunnels
  pub old : ℕ
  pub holders : List (Holder R)

-- A replaced tunnel closes, Start sees its context done, and it closes the tunnels.
pub data Event : Type 0 where
  moves : ℕ → Input → Event
  old_closes stops ends : Event

-- backoff.ExponentialBackOff: Reset and NextBackOff.
module _ {ℓ} {R : Type ℓ} (reset : R → R) (next : R → R × ℤ) where
  -- After serveOne, which returned nil if the tunnel was replaced.
  abbrev pub rested : R → ℤ → R
  rested r elapsed = if ltb_ℤ stable_after elapsed then reset r else r

  abbrev pub redial : R → ℤ → Bool → Holder R
  redial r elapsed is_replaced =
      let (r', wait) = next (rested r elapsed) in
      if is_replaced then waiting (reset r') (pos 0) else waiting r' wait

  abbrev pub on_dialed : Dialed → ℤ → Tunnels → R → Tunnels × ℕ × Holder R
  on_dialed connected elapsed t r =
      (tracked (pos 1) t, 0, serving r (record { replaced = false; closed = false }))
  on_dialed _ elapsed t r = (t, 0, redial r elapsed false)

  -- What happens to a tunnel that is served; the edge controller asks for nothing once it is closed.
  abbrev pub on_tunnel : Happening → ℤ → Tunnels → R → Served → Tunnels × ℕ × Holder R
  on_tunnel asked_to_replace elapsed t r s =
      (t, 0, serving r (record s { replaced = s.replaced || not s.closed }))
  on_tunnel closes elapsed t r s =
      if s.closed
      then (t, 0, serving r s)
      else (tracked (negsuc 0) t, 0, serving r (record s { closed = true }))
  on_tunnel sees_replaced elapsed t r s =
      if s.replaced
      then (t, if s.closed then 0 else 1, redial r elapsed true)
      else (t, 0, serving r s)
  on_tunnel sees_closed elapsed t r s =
      (t, 0, if s.closed then redial r elapsed false else serving r s)

  -- hold from one wait to the next: the counters, the replaced tunnels that it leaves open, and
  -- where it is then.
  unfoldable pub advance : Input → Tunnels → Holder R → Tunnels × ℕ × Holder R
  advance a t (looping r) = (t, 0, if not t.ended && not t.stopping then dialing r else stopped)
  advance a t (dialing r) = on_dialed a.dialed a.elapsed t r
  advance a t (serving r s) = on_tunnel a.happens a.elapsed t r s
  advance a t (waiting r wait) = (t, 0, looping r)
  advance a t stopped = (t, 0, stopped)

  unfoldable pub advance_at : ℕ → Input → Tunnels → List (Holder R) → Tunnels × ℕ × List (Holder R)
  advance_at i a t [] = (t, 0, [])
  advance_at zero a t (h ∷ hs) = let (t', o, h') = advance a t h in (t', o, h' ∷ hs)
  advance_at (suc i) a t (h ∷ hs) = let (t', o, hs') = advance_at i a t hs in (t', o, h ∷ hs')

  abbrev pub old_closed : ℕ → World R → World R
  old_closed zero w = w
  old_closed (suc n) w = record w { counters = tracked (negsuc 0) w.counters; old = n }

  unfoldable pub step : Event → World R → World R
  step (moves i a) w =
      let (t, o, hs) = advance_at i a w.counters w.holders in
      record { counters = t; old = w.old + o; holders = hs }
  step old_closes w = old_closed w.old w
  step stops w = record w { counters = record w.counters { stopping = true } }
  step ends w = record w { counters = record w.counters { ended = w.counters.stopping } }

  unfoldable pub run : List Event → World R → World R
  run [] w = w
  run (e ∷ es) w = run es (step e w)

-- Start: a loop for each of Count tunnels, each with its backoff.
abbrev pub loops {ℓ} : {R : Type ℓ} → R → ℕ → List (Holder R)
loops r zero = []
loops r (suc n) = looping r ∷ loops r n

abbrev pub zero_tunnels : Tunnels
zero_tunnels = record { up = pos 0; ever_up = false; stopping = false; ended = false }

abbrev pub start {ℓ} : {R : Type ℓ} → R → ℕ → World R
start r count = record { counters = zero_tunnels; old = 0; holders = loops r count }

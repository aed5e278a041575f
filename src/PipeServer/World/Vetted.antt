-- ===== src/PipeServer/World/Vetted.antt =====
-- What was checked of a pipe that is served.
use traversal_connector.Common.{
  ℕ, zero, suc, ◌≡◌, refl, subst, inl, inr, Bool, true, false, not, ◌&&◌, Option, some, List, [],
  ◌∷◌, arith, Bool-cases, Option-cases, Text, text_eq, text_eq_iff, All,
}
use traversal_connector.Common.Int.{ℤ}
use traversal_connector.Common.Decimal.{format_uint16}
use traversal_connector.Drain.{Tracker, add}
use traversal_connector.Hostname.{is_canonical, split_authority, join_host_port}
use traversal_connector.Hostname.Authority.{split_authority_sound}
use traversal_connector.RawPipe.{
  Result, ok, err, >>=-eq-ok, refuse_if, or_refuse-ok, draining, protocol_error,
}
use traversal_connector.Capability.{Claims}
use traversal_connector.Capability.Opens.{Opens}
use traversal_connector.Capability.Verify.{heap_of, Library, verify}
use traversal_connector.Capability.Verify.Sound.{IsAuthentic, IsFor, verify_sound}
use traversal_connector.PipeServer.{
  Request, Stage, arrived, checked, cleared, serving, refused, finished, Server, advance, on_claims,
  on_destination, destination, on_slot, probe_host, probe_authority, method_connect, authority_of,
}
use mathlib.Core.List.{Memᴰ}
use traversal_connector.PipeServer.World.{
  Event, arrives, runs, drains, World, fresh, advance_at, step, run,
}

-- The requests that come in.
abbrev pub CameIn : List Event → Request → Type 0
CameIn es r = Memᴰ (arrives r) es

module _ (lib : Library) (s : Server lib) (came : Request → Type 0) where
  -- A request that came in, whose token was good for the pipe's claims at some time, and the
  -- destination that it and they name.
  pub record IsVetted (url : Text) (c : Claims) : Type 0 where
    pub request : Request
    pub came_in : came request
    pub at : ℤ
    pub issuer : Text
    pub authentic : IsAuthentic lib s.verifier request.capability at c issuer
    pub host : Text
    pub port : ℕ
    pub asked : split_authority lib.std request.host ≡ some (host, port)
    pub granted : IsFor lib s.verifier c issuer s.connector_id host port at
    pub canonical : is_canonical lib.std host ≡ true
    pub names : url ≡ join_host_port host (format_uint16 port)
    pub probe : host ≡ probe_host → url ≡ probe_authority

  abbrev pub Vetted : Stage → Type 0
  Vetted (arrived r) = came r
  Vetted (checked r host port) = came r × (split_authority lib.std r.host ≡ some (host, port))
  Vetted (cleared url c) = IsVetted url c
  Vetted (serving url c) = IsVetted url c
  Vetted _ = Unit

  destination_asked :
      (drained : Bool) (r : Request) (host : Text) (port : ℕ)
      → destination lib drained r ≡ ok (host, port)
      → split_authority lib.std r.host ≡ some (host, port)
  destination_asked drained r host port e =
      let (_, _, e₁) = >>=-eq-ok (refuse_if drained draining) _ e in
      let (_, _, e₂) =
        >>=-eq-ok (refuse_if (not (text_eq r.method method_connect)) protocol_error) _ e₁ in
      or_refuse-ok (split_authority lib.std r.host) protocol_error e₂

  destination-Vetted :
      (r : Request) (d : Result (Text × ℕ))
      → came r
      → ((host : Text) (port : ℕ)
          → d ≡ ok (host, port)
          → split_authority lib.std r.host ≡ some (host, port))
      → Vetted (on_destination lib r d)
  destination-Vetted r (err reason) v h = tt
  destination-Vetted r (ok (host, port)) v h = (v, h host port refl)

  claims-Vetted :
      (r : Request) (host : Text) (port : ℕ) (now : ℤ) (o o' : Opens (heap_of lib))
      (g : Result Claims)
      → came r
      → split_authority lib.std r.host ≡ some (host, port)
      → verify lib s.verifier r.capability s.connector_id host port now o ≡ (o', g)
      → Vetted (on_claims lib host port g)
  unfolding on_claims
  claims-Vetted r host port now o o' (err reason) v asked e = tt
  claims-Vetted r host port now o o' (ok c) v asked e =
      let (issuer, authentic, granted) =
        verify_sound lib s.verifier r.capability s.connector_id host port now o o' c e in
      elim (Bool-cases
        (text_eq host probe_host && not (text_eq (authority_of lib host port) probe_authority))) [
          | inl bad ↦ rw (bad) tt
          | inr fine ↦ rw (fine) (record {
            request = r;
            came_in = v;
            asked = asked;
            at = now;
            issuer = issuer;
            authentic = authentic;
            host = host;
            port = port;
            granted = granted;
            canonical = (split_authority_sound lib.std r.host host port asked).1;
            names = refl;
            probe = λ same. ground (
              arith,
              fine,
              text_eq_iff host probe_host,
              text_eq_iff (authority_of lib host port) probe_authority,
            );
          })
        ]

  slot-Vetted : (url : Text) (c : Claims) (b : Bool) → IsVetted url c → Vetted (on_slot lib url c b)
  slot-Vetted url c true v = v
  slot-Vetted url c false v = tt

  ends_finished :
      (now : ℤ) (t t' : Tracker) (o o' : Opens (heap_of lib)) (url : Text) (c : Claims) (h' : Stage)
      → advance lib s now t o (serving url c) ≡ some (t', o', h')
      → finished ≡ h'
  unfolding advance
  ends_finished now t t' o o' url c h' e = ground arith

  -- The stage that a segment ends in.
  third :
      {t t' : Tracker} {o o' : Opens (heap_of lib)} {h h' : Stage}
      → ◌≡◌ {A = Option (Tracker × Opens (heap_of lib) × Stage)}
          (some (t, o, h))
          (some (t', o', h'))
      → h ≡ h'
  third e = ground arith

  advance-Vetted :
      (now : ℤ) (t t' : Tracker) (o o' : Opens (heap_of lib)) (h h' : Stage)
      → Vetted h
      → advance lib s now t o h ≡ some (t', o', h')
      → Vetted h'
  unfolding advance
  advance-Vetted now t t' o o' (arrived r) h' v e =
      subst Vetted (third e)
        (destination-Vetted r (destination lib t.draining r) v (destination_asked t.draining r))
  advance-Vetted now t t' o o' (checked r host port) h' v e =
      subst Vetted (third e) (claims-Vetted r host port now o _ _ v.0 v.1 refl)
  advance-Vetted now t t' o o' (cleared url c) h' v e =
      subst Vetted (third e) (slot-Vetted url c (add s.max_pipes t).1 v)
  advance-Vetted now t t' o o' (serving url c) h' v e =
      subst Vetted (ends_finished now t t' o o' url c h' e) tt
  advance-Vetted now t t' o o' (refused reason) h' v e = subst Vetted (third e) tt
  advance-Vetted now t t' o o' finished h' v e = subst Vetted (third e) tt

  fourth :
      {t t' : Tracker} {o o' : Opens (heap_of lib)} {hs hs' : List Stage}
      → ◌≡◌ {A = Option (Tracker × Opens (heap_of lib) × List Stage)}
          (some (t, o, hs))
          (some (t', o', hs'))
      → hs ≡ hs'
  fourth e = ground arith

  advance_at-Vetted :
      (i : ℕ) (now : ℤ) (t t' : Tracker) (o o' : Opens (heap_of lib)) (hs hs' : List Stage)
      → All Vetted hs
      → advance_at lib s i now t o hs ≡ some (t', o', hs')
      → All Vetted hs'
  unfolding advance_at
  advance_at-Vetted i now t t' o o' [] hs' v e = subst (All Vetted) (fourth e) tt
  advance_at-Vetted zero now t t' o o' (h ∷ hs) hs' (v, vs) e =
      elim (Option-cases (advance lib s now t o h)) [
        | inl stopped ↦ absurd (ground arith)
        | inr ((u, p, h'), moved) ↦
            let same : h' ∷ hs ≡ hs' = ground arith in
            subst (All Vetted) same (advance-Vetted now t u o p h h' v moved, vs)
      ]
  advance_at-Vetted (suc i) now t t' o o' (h ∷ hs) hs' (v, vs) e =
      elim (Option-cases (advance_at lib s i now t o hs)) [
        | inl stopped ↦ absurd (ground arith)
        | inr ((u, p, ks), moved) ↦
            let same : h ∷ ks ≡ hs' = ground arith in
            subst (All Vetted) same (v, advance_at-Vetted i now t u o p hs ks vs moved)
      ]

  abbrev Came : Event → Type 0
  Came (arrives r) = came r
  Came _ = Unit

  step-Vetted :
      (e : Event) (w w' : World lib)
      → Came e
      → All Vetted w.handlers
      → step lib s e w ≡ some w'
      → All Vetted w'.handlers
  unfolding step
  step-Vetted (arrives r) w w' c v e =
      let same : arrived r ∷ w.handlers ≡ w'.handlers = ground arith in
      subst (All Vetted) same (c, v)
  step-Vetted (runs i now) w w' c v e =
      elim (Option-cases (advance_at lib s i now w.pipes w.opens w.handlers)) [
        | inl stopped ↦ absurd (ground arith)
        | inr ((t, o, hs), moved) ↦
            subst (All Vetted) (ground arith)
              (advance_at-Vetted i now w.pipes t w.opens o w.handlers hs v moved)
      ]
  step-Vetted drains w w' c v e =
      let same : w.handlers ≡ w'.handlers = ground arith in subst (All Vetted) same v

  steps-Vetted :
      (es : List Event) (w w' : World lib)
      → All Came es
      → All Vetted w.handlers
      → run lib s es w ≡ some w'
      → All Vetted w'.handlers
  unfolding run
  steps-Vetted [] w w' c v e =
      let same : w.handlers ≡ w'.handlers = ground arith in subst (All Vetted) same v
  steps-Vetted (x ∷ es) w w' (c, cs) v e = elim (Option-cases (step lib s x w)) [
    | inl stopped ↦ absurd (ground arith)
    | inr (u, stepped) ↦ steps-Vetted es u w' cs (step-Vetted x w u c v stepped) (ground arith)
  ]

module _ (lib : Library) (s : Server lib) where
  All-Came :
      (es fs : List Event) → ((e : Event) → Memᴰ e es → Memᴰ e fs) → All (Came lib s (CameIn fs)) es
  All-Came [] fs h = tt
  All-Came (arrives r ∷ es) fs h =
      (h (arrives r) (Memᴰ.head refl), All-Came es fs (λ e m. h e (Memᴰ.tail m)))
  All-Came (runs i now ∷ es) fs h = (tt, All-Came es fs (λ e m. h e (Memᴰ.tail m)))
  All-Came (drains ∷ es) fs h = (tt, All-Came es fs (λ e m. h e (Memᴰ.tail m)))

  -- Whatever comes in from the start on, and however the handlers interleave, every handler that
  -- serves a pipe does so for a request that came in, and has verified the token of that request: an
  -- authentic one, whose claims are for this connector and for the host and port that the request asks
  -- for and the pipe is for, in their one spelling, good at the time; and a pipe to the probe's host
  -- is for the probe's authority.
  pub run-Vetted :
      (es : List Event) (w : World lib)
      → run lib s es (fresh lib) ≡ some w
      → All (Vetted lib s (CameIn es)) w.handlers
  unfolding fresh
  run-Vetted es w e =
      steps-Vetted lib s (CameIn es) es (fresh lib) w (All-Came es es (λ x m. m)) tt e

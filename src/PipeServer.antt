-- ===== src/PipeServer.antt =====
-- internal/pipeserver/server.go: the handler of a pipe, cut where other handlers can run between.
-- Draining, Verify, Add and Done each hold a lock; the code between two of them is one segment.
pub mod World
pub mod Forward
pub mod Egress
mod Tests
use traversal_connector.Common.{
  ℕ, ◌+◌, ◌-◌, ◌*◌, ◌/◌, min, max, Bool, true, false, not, ◌&&◌, Option, none, some, if◌then◌else◌,
  Text, codes, text_eq,
}
use traversal_connector.Common.Decimal.{format_uint16}
use traversal_connector.Common.Int.{ℤ}
use traversal_connector.Hostname.{join_host_port, split_authority}
use traversal_connector.Drain.{Tracker, add, Outcome, returned, done}
use traversal_connector.RawPipe.{
  Reason, draining, protocol_error, wrong_destination, capacity, Result, ok, err, ◌>>=◌, ◌>>◌,
  refuse_if, or_refuse,
}
use traversal_connector.Capability.{Claims}
use traversal_connector.Capability.Opens.{Opens}
use traversal_connector.Capability.Verify.{heap_of, Library, Verifier, verify}

abbrev pub probe_host : Text
probe_host = codes "traversal-connector.internal"

abbrev pub probe_authority : Text
probe_authority = codes "traversal-connector.internal:443"

abbrev pub method_connect : Text
method_connect = codes "CONNECT"

abbrev pub stream_window : ℕ
stream_window = 512 * 1024

-- What `open` reads of a request on a tunnel.
pub record Request : Type 0 where
  pub method : Text
  pub host : Text
  pub capability : Text

-- Where the handler of a request stands: about to look whether the server drains; about to verify;
-- about to take a slot; serving the pipe, its Done deferred; and two ends.
pub data Stage : Type 0 where
  arrived : Request → Stage
  checked : Request → Text → ℕ → Stage
  cleared serving : Text → Claims → Stage
  refused : Reason → Stage
  finished : Stage

-- The numbers that bound HTTP/2 on a tunnel.
pub record Http2Config : Type 0 where
  pub max_concurrent_streams : ℕ
  pub max_receive_buffer_per_stream : ℕ
  pub max_receive_buffer_per_connection : ℕ

module _ (lib : Library) where
  -- MaxPipes and Tunnels are ints, of which only a positive one counts: 0 stands for every other.
  pub record Server : Type 0 where
    pub connector_id : Text
    pub verifier : Verifier lib
    pub max_pipes : ℕ
    pub tunnels : ℕ

  pub h2 : Server → Http2Config
  h2 s =
      let tunnels = max 1 s.tunnels in
      let per_tunnel = max 1 ((s.max_pipes + tunnels - 1) / tunnels) in
      record {
        max_concurrent_streams = min (per_tunnel + 16) 1048576;
        max_receive_buffer_per_stream = stream_window;
        max_receive_buffer_per_connection = min (per_tunnel * stream_window) 1073741824;
      }

  -- `open` up to Verify.
  abbrev pub destination : Bool → Request → Result (Text × ℕ)
  destination drains r = do
    refuse_if drains draining
    refuse_if (not (text_eq r.method method_connect)) protocol_error
    or_refuse (split_authority lib.std r.host) protocol_error

  abbrev pub on_destination : Request → Result (Text × ℕ) → Stage
  on_destination r (err reason) = refused reason
  on_destination r (ok (host, port)) = checked r host port

  abbrev pub authority_of : Text → ℕ → Text
  authority_of host port = join_host_port host (format_uint16 port)

  -- `open` after Verify, up to Add.
  pub on_claims : Text → ℕ → Result Claims → Stage
  on_claims host port (err reason) = refused reason
  on_claims host port (ok c) =
      if text_eq host probe_host && not (text_eq (authority_of host port) probe_authority)
      then refused wrong_destination
      else cleared (authority_of host port) c

  abbrev pub on_slot : Text → Claims → Bool → Stage
  on_slot url c true = serving url c
  on_slot url c false = refused capacity

  -- The next segment of a handler, at a time: what it leaves of the tracker and of the verifier's
  -- counts, and where the handler then stands. `none` is a panic of Done.
  pub advance :
      Server
      → ℤ
      → Tracker
      → Opens (heap_of lib)
      → Stage
      → Option (Tracker × Opens (heap_of lib) × Stage)
  unfolding on_claims
  advance s now t o (arrived r) = some (t, o, on_destination r (destination t.draining r))
  advance s now t o (checked r host port) =
      let (o', granted) = verify lib s.verifier r.capability s.connector_id host port now o in
      some (t, o', on_claims host port granted)
  advance s now t o (cleared url c) =
      let (t', taken) = add s.max_pipes t in some (t', o, on_slot url c taken)
  advance s now t o (serving url c) = elim (done t) [
    | returned t' ↦ some (t', o, finished)
    | _ ↦ none
  ]
  advance s now t o (refused reason) = some (t, o, refused reason)
  advance s now t o finished = some (t, o, finished)

-- ===== src/Halfconn.antt =====
-- connector-lib/halfconn/splice.go: the copy between two ends, as the answers of the calls on the
-- ends come in, in any order of the two directions and of the timers.
pub mod Copied
pub mod Invariant
pub mod Settled
mod Tests
use traversal_connector.Common.{
  ℕ, ◌+◌, Bool, true, false, Option, none, some, List, [], ◌∷◌, ◌++◌, Text, length, take,
}

pub data Outcome : Type 0 where
  completed limit caller_aborted dest_aborted : Outcome

-- The error of a Read: none, io.EOF, or another.
pub data ReadStatus : Type 0 where
  more eof broken : ReadStatus

-- The call that copyEnd is in, with the bytes it has counted, or that it has returned: a Read; the
-- Write of what a Read gave, with the error of that Read; a CloseWrite.
pub data Copier : Type 0 where
  reading closing returned : ℕ → Copier
  writing : Text → ReadStatus → ℕ → Copier

-- One direction: what its source has given, what its destination has taken, and whether the
-- destination has taken a CloseWrite.
pub record Link : Type 0 where
  pub copier : Copier
  pub given : Text
  pub taken : Text
  pub closed : Bool

-- What a call on an end answers; a Write that fails may have taken some of the bytes.
pub data Answer : Type 0 where
  gives : Text → ReadStatus → Answer
  takes : Answer
  refuses : ℕ → Answer
  closes : Bool → Answer

abbrev pub at : Link → Copier → Link
at l c = record l { copier = c }

-- The switch of the loop, and the outcome with which `fail` is called, if it is.
unfoldable pub after_read : Outcome → ReadStatus → ℕ → Link → Link × Option Outcome
after_read src_failed more n l = (at l (reading n), none)
after_read src_failed eof n l = (at l (closing n), none)
after_read src_failed broken n l = (at l (returned n), some src_failed)

abbrev pub received : Link → Text → Link
received l bytes = record l { taken = l.taken ++ bytes }

abbrev pub supplied : Link → Text → Link
supplied l bytes = record l { given = l.given ++ bytes }

-- copyEnd, from one call on an end to the next; an answer to another call changes nothing.
pub copy_from : Outcome → Outcome → Copier → Answer → Link → Link × Option Outcome
unfolding after_read
copy_from src_failed dst_failed (reading n) (gives [] status) l = after_read src_failed status n l
copy_from src_failed dst_failed (reading n) (gives (b ∷ bytes) status) l =
    (at (supplied l (b ∷ bytes)) (writing (b ∷ bytes) status n), none)
copy_from src_failed dst_failed (writing bytes status n) takes l =
    after_read src_failed status (n + length bytes) (received l bytes)
copy_from src_failed dst_failed (writing bytes status n) (refuses m) l =
    (at (received l (take m bytes)) (returned n), some dst_failed)
copy_from src_failed dst_failed (closing n) (closes true) l =
    (record l { copier = returned n; closed = true }, none)
copy_from src_failed dst_failed (closing n) (closes false) l = (at l (returned n), some dst_failed)
copy_from src_failed dst_failed c a l = (l, none)

abbrev pub copy_end : Outcome → Outcome → Answer → Link → Link × Option Outcome
copy_end src_failed dst_failed a l = copy_from src_failed dst_failed l.copier a l

-- Splice: both directions, the outcome once `once` has run, and which ends were aborted.
pub record Splicing : Type 0 where
  pub up : Link
  pub down : Link
  pub once : Option Outcome
  pub caller_reset : Bool
  pub dest_reset : Bool

abbrev pub new_link : Link
new_link = record { copier = reading 0; given = []; taken = []; closed = false }

abbrev pub start : Splicing
start = record {
  up = new_link;
  down = new_link;
  once = none;
  caller_reset = false;
  dest_reset = false;
}

pub fail : Outcome → Splicing → Splicing
fail o p = elim p.once [
  | none ↦ record p { once = some o; caller_reset = true; dest_reset = true }
  | some settled ↦ p
]

abbrev pub fail_with : Option Outcome → Splicing → Splicing
fail_with none p = p
fail_with (some o) p = fail o p

abbrev pub has_returned : Copier → Bool
has_returned (returned n) = true
has_returned _ = false

-- The last `once.Do`, after both directions have returned.
abbrev pub settle_once : Option Outcome → Option Outcome
settle_once none = some completed
settle_once (some o) = some o

pub data Event : Type 0 where
  up_answers down_answers : Answer → Event
  limit_fires settles : Event

pub step : Event → Splicing → Splicing
unfolding fail copy_from
step (up_answers a) p =
    let (l, failure) = copy_end caller_aborted dest_aborted a p.up in
    fail_with failure (record p { up = l })
step (down_answers a) p =
    let (l, failure) = copy_end dest_aborted caller_aborted a p.down in
    fail_with failure (record p { down = l })
step limit_fires p = fail limit p
step settles p = elim (has_returned p.up.copier) [
  | false ↦ p
  | true ↦ elim (has_returned p.down.copier) [
    | false ↦ p
    | true ↦ record p { once = settle_once p.once }
  ]
]

pub run : List Event → Splicing → Splicing
unfolding step
run [] p = p
run (e ∷ es) p = run es (step e p)

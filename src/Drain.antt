-- ===== src/Drain.antt =====
-- connector-lib/drain/drain.go: the count of work in flight. A method that changes the tracker
-- returns the new one; `makes` and `closed` are the store of the channels it has made.
pub mod Invariant
pub mod Wait
pub mod History
mod Tests
use traversal_connector.Common.{
  ℕ, ◌+◌, ◌-◌, Bool, true, false, ◌&&◌, Option, none, some, ltb, leb, ◌==◌, if◌then◌else◌,
}

-- The `idle` channel is the number of the `make` that created it; a channel is only ever closed.
pub record Tracker : Type 0 where
  pub draining : Bool
  pub n : ℕ
  pub idle : Option ℕ
  pub makes : ℕ
  pub closed : ℕ → Bool

abbrev pub zero_tracker : Tracker
zero_tracker = record { draining = false; n = 0; idle = none; makes = 0; closed = λ _. false }

abbrev make_idle : Tracker → Tracker
make_idle t = record t { idle = some t.makes; makes = t.makes + 1 }

abbrev count_up : Tracker → Tracker
count_up t = record t { n = t.n + 1 }

-- `limit` is an int, of which only a positive one bounds: 0 stands for every other.
pub add : ℕ → Tracker → Tracker × Bool
add limit t =
    if ltb 0 limit && leb limit t.n
    then (t, false)
    else (count_up (if t.n == 0 then make_idle t else t), true)

-- What a call that may panic comes to: `close` of a nil or of a closed channel panics in Go.
pub data Outcome : Type 0 where
  done_without_add close_of_nil close_of_closed : Outcome
  returned : Tracker → Outcome

close_idle : Tracker → Option ℕ → Outcome
close_idle t none = close_of_nil
close_idle t (some c) =
    if t.closed c
    then close_of_closed
    else returned (record t { closed = λ d. if d == c then true else t.closed d })

pub done : Tracker → Outcome
unfolding close_idle
done t =
    if t.n == 0
    then done_without_add
    else if t.n - 1 == 0
    then close_idle (record t { n = t.n - 1 }) t.idle
    else returned (record t { n = t.n - 1 })

pub in_flight : Tracker → ℕ
in_flight t = t.n

unfoldable pub drain : Tracker → Tracker
drain t = record t { draining = true }

-- Where one call of `Wait` stands: about to look, in the select on the channel that it read, or
-- returned, with no error or with the count in the error.
pub data Waiter : Type 0 where
  looking drained : Waiter
  blocked : Option ℕ → Waiter
  timed_out : ℕ → Waiter

-- The top of the loop of `Wait`, which holds the lock.
pub look : Tracker → Waiter
look t = if t.n == 0 then drained else blocked t.idle

-- The select, when the channel it waits on is closed; a nil channel never is.
pub wake : Tracker → Option ℕ → Waiter
wake t none = blocked none
wake t (some c) = if t.closed c then looking else blocked (some c)

-- The select, when ctx is done.
pub give_up : Tracker → Waiter
unfolding in_flight
give_up t = timed_out (in_flight t)

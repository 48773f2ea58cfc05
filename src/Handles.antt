-- ===== src/Handles.antt =====
-- The handles of the streams: crates/relayer/src/handle.rs, and crates/node/src/handles/validation.rs
-- and node.rs. How a task of tokio ends is an input; what a handle does is the list of its events in their
-- order: the signals that it sends on the channel that shuts its stream down, also those of its `Drop`,
-- and the end of a task that it waits for.
pub mod Signals
mod Tests
use essential_node.Prelude.{
  Option, none, some, List, [], ◌∷◌, ◌++◌, Result, ok, err, Bool, true, false,
}

-- how a spawned task ends: with its result, cancelled, or in a panic
pub data Joined (E : Type 0) : Type 0 where
  joined : Result E (Unit {0}) → Joined E
  cancelled panicked : Joined E

-- what a function of a handle does: it returns, or goes on with the panic of a task
pub data Outcome (E : Type 0) : Type 0 where
  returns : Result E (Unit {0}) → Outcome E
  resumes_unwind : Outcome E

pub data Stream : Type 0 where
  relayer_stream validation_stream : Stream

-- the stream is told to shut down, or its task, which was waited for, has ended
pub data Event : Type 0 where
  tells ended : Stream → Event

unfoldable pub flatten_result : {E : Type 0} → Joined E → Outcome E
flatten_result (joined r) = returns r
flatten_result cancelled = returns (ok tt)
flatten_result panicked = resumes_unwind

-- `Handle::close` and `Handle::join` of the relayer; the drop of the handle's `Close` comes last
unfoldable pub close_relayer : {E : Type 0} → Joined E → Outcome E × List Event
unfolding flatten_result
close_relayer task =
    (flatten_result task, tells relayer_stream ∷ ended relayer_stream ∷ tells relayer_stream ∷ [])

unfoldable pub join_relayer : {E : Type 0} → Joined E → Outcome E × List Event
unfolding flatten_result
join_relayer task =
    (flatten_result task, ended relayer_stream ∷ tells relayer_stream ∷ tells relayer_stream ∷ [])

-- the same of the validation stream
unfoldable pub close_validation : {E : Type 0} → Joined E → Outcome E × List Event
unfolding flatten_result
close_validation task = (
  flatten_result task,
  tells validation_stream ∷ ended validation_stream ∷ tells validation_stream ∷ [],
)

unfoldable pub join_validation : {E : Type 0} → Joined E → Outcome E × List Event
unfolding flatten_result
join_validation task = (flatten_result task, ended validation_stream ∷ tells validation_stream ∷ [])

-- the drop of a handle that is not used
abbrev pub dropped : {E : Type 0} → Stream → Option (Joined E) → List Event
dropped stream none = []
dropped stream (some task) = tells stream ∷ []

-- `CriticalError` and `NodeHandleJoinError`, by the stream
pub data NodeError (R V : Type 0) : Type 0 where
  relayer_failed : R → NodeError R V
  validation_failed : V → NodeError R V

abbrev pub wrap : {E F : Type 0} → (E → F) → Outcome E × List Event → Outcome F × List Event
wrap f (returns (ok u), sent) = (returns (ok tt), sent)
wrap f (returns (err e), sent) = (returns (err (f e)), sent)
wrap f (resumes_unwind, sent) = (resumes_unwind, sent)

-- a handle that may be there
abbrev pub each :
    {E F : Type 0}
    → (E → F)
    → (Joined E → Outcome E × List Event)
    → Option (Joined E)
    → Outcome F × List Event
each f close none = (returns (ok tt), [])
each f close (some task) = wrap f (close task)

-- What follows where the first returned without an error; where it did not, what is left is dropped.
abbrev pub and_then :
    {F : Type 0}
    → Outcome F × List Event
    → List Event
    → Outcome F × List Event
    → Outcome F × List Event
and_then (returns (ok u), sent) on_exit (out, more) = (out, sent ++ more)
and_then (returns (err e), sent) on_exit next = (returns (err e), sent ++ on_exit)
and_then (resumes_unwind, sent) on_exit next = (resumes_unwind, sent ++ on_exit)

module _ {R V : Type 0} where
  -- `Handle::close` of the node
  unfoldable pub close_node :
      Option (Joined R) → Option (Joined V) → Outcome (NodeError R V) × List Event
  unfolding close_relayer close_validation
  close_node relayer validation =
      and_then (each relayer_failed close_relayer relayer) (dropped validation_stream validation)
        (each validation_failed close_validation validation)

  -- `Handle::join` of the node, by whether the relayer's future is the first to complete: `try_join!`
  -- drops the other one where the first fails
  unfoldable pub join_node :
      Bool → Option (Joined R) → Option (Joined V) → Outcome (NodeError R V) × List Event
  unfolding join_relayer join_validation
  join_node true relayer validation =
      and_then (each relayer_failed join_relayer relayer) (dropped validation_stream validation)
        (each validation_failed join_validation validation)
  join_node false relayer validation =
      and_then (each validation_failed join_validation validation) (dropped relayer_stream relayer)
        (each relayer_failed join_relayer relayer)

-- ===== src/Handles/Signals.antt =====
-- When the streams are told to shut down, where the handle of a node is closed or joined.
use essential_node.Handles.{
  Joined, joined, cancelled, panicked, Outcome, returns, resumes_unwind, Stream, Event, tells,
  ended, relayer_stream, validation_stream, flatten_result, close_relayer, join_relayer,
  close_validation, join_validation, close_node, join_node,
}
use essential_node.Prelude.{
  ◌≡◌, Bool, true, false, Option, none, some, List, [], ◌∷◌, arith, ◌&&◌, ◌||◌, not, if◌then◌else◌,
  ok, err,
}

abbrev pub same_stream : Stream → Stream → Bool
same_stream relayer_stream relayer_stream = true
same_stream validation_stream validation_stream = true
same_stream _ _ = false

-- the stream was told to shut down, at any time
abbrev pub told : Stream → List Event → Bool
told s [] = false
told s (tells t ∷ events) = let rest = told s events in same_stream s t || rest
told s (ended t ∷ events) = told s events

-- the stream was told to shut down while its task was not known to have ended
abbrev pub told_first : Stream → List Event → Bool
told_first s [] = false
told_first s (tells t ∷ events) =
    let rest = told_first s events in if same_stream s t then true else rest
told_first s (ended t ∷ events) =
    let rest = told_first s events in if same_stream s t then false else rest

abbrev pub is_some : {A : Type 0} → Option A → Bool
is_some none = false
is_some (some a) = true

-- just the streams that run are told
abbrev pub ToldAll : {R V : Type 0} → Option (Joined R) → Option (Joined V) → List Event → Type 0
ToldAll relayer validation events =
    (told relayer_stream events ≡ is_some relayer)
    × (told validation_stream events ≡ is_some validation)

-- no stream, or one that ended without an error: a cancelled task counts as such
abbrev pub ended_well : {E : Type 0} → Option (Joined E) → Bool
ended_well none = true
ended_well (some (joined (ok u))) = true
ended_well (some (joined (err e))) = false
ended_well (some cancelled) = true
ended_well (some panicked) = false

abbrev pub is_ok : {E : Type 0} → Outcome E → Bool
is_ok (returns (ok u)) = true
is_ok (returns (err e)) = false
is_ok resumes_unwind = false

-- However the tasks of the two streams end, in a result, cancelled or in a panic. `close` tells both
-- streams that run to shut down before it knows of the end of their tasks. `join` never tells the
-- stream that is the first to end before it has; it tells the other one first only where the first
-- failed or panicked, and where the first ended without an error it waits for the other to end by
-- itself. Both calls have told all streams that run in the end, and return without an error exactly
-- where no task failed or panicked.
pub close_node-ToldFirst :
    {R V : Type 0} (relayer : Option (Joined R)) (validation : Option (Joined V))
    → ((told_first relayer_stream (close_node relayer validation).1 ≡ is_some relayer)
        × (told_first validation_stream (close_node relayer validation).1 ≡ is_some validation))
      × ((told_first relayer_stream (join_node true relayer validation).1 ≡ false)
          × (told_first validation_stream (join_node true relayer validation).1
              ≡ (is_some validation && not (ended_well relayer))))
      × ((told_first validation_stream (join_node false relayer validation).1 ≡ false)
          × (told_first relayer_stream (join_node false relayer validation).1
              ≡ (is_some relayer && not (ended_well validation))))
      × (ToldAll relayer validation (close_node relayer validation).1
          × ToldAll relayer validation (join_node true relayer validation).1
          × ToldAll relayer validation (join_node false relayer validation).1)
      × ((is_ok (close_node relayer validation).0 ≡ (ended_well relayer && ended_well validation))
          × (is_ok (join_node true relayer validation).0
              ≡ (ended_well relayer && ended_well validation))
          × (is_ok (join_node false relayer validation).0
              ≡ (ended_well relayer && ended_well validation)))
unfolding close_node join_node close_relayer join_relayer close_validation join_validation
    flatten_result
close_node-ToldFirst relayer validation = (
  (ground arith, ground arith),
  (ground arith, ground arith),
  (ground arith, ground arith),
  (ground arith, ground arith, ground arith),
  (ground arith, ground arith, ground arith),
)

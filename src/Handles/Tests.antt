-- ===== src/Handles/Tests.antt =====
-- A node whose relayer ended without an error and whose validation failed.
use essential_node.Handles.{
  Joined, joined, relayer_stream, validation_stream, close_node, join_node,
}
use essential_node.Handles.Signals.{ToldAll, told_first, is_ok, close_node-ToldFirst}
use essential_node.Prelude.{ℕ, ◌≡◌, true, false, Option, some, ok, err}

abbrev finished : Option (Joined ℕ)
finished = some (joined (ok tt))

abbrev failed : Option (Joined ℕ)
failed = some (joined (err 7))

close_node-ToldFirst_example :
    ((told_first relayer_stream (close_node finished failed).1 ≡ true)
      × (told_first validation_stream (close_node finished failed).1 ≡ true))
    × ((told_first relayer_stream (join_node true finished failed).1 ≡ false)
        × (told_first validation_stream (join_node true finished failed).1 ≡ false))
    × ((told_first validation_stream (join_node false finished failed).1 ≡ false)
        × (told_first relayer_stream (join_node false finished failed).1 ≡ true))
    × (ToldAll finished failed (close_node finished failed).1
        × ToldAll finished failed (join_node true finished failed).1
        × ToldAll finished failed (join_node false finished failed).1)
    × ((is_ok (close_node finished failed).0 ≡ false)
        × (is_ok (join_node true finished failed).0 ≡ false)
        × (is_ok (join_node false finished failed).0 ≡ false))
close_node-ToldFirst_example = close_node-ToldFirst finished failed

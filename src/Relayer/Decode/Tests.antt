-- ===== src/Relayer/Decode/Tests.antt =====
-- The theorem about the frames of the event stream, at a buffer with one event and the start of a next.
use essential_node.Relayer.Decode.{Text, decode}
use essential_node.Relayer.Decode.Frames.{Decodes, decode-Decodes}
use essential_node.Prelude.{true, some, [], ◌∷◌, Bytes}

-- text that is passed on as it is
abbrev plain_text : Text Bytes
plain_text = record { is_utf8 = λ b. true; trimmed = λ b. b; from_str = λ b. some b }

abbrev event_and_more : Bytes
event_and_more = 65 ∷ 10 ∷ 10 ∷ 66 ∷ []

decode-Decodes_example : Decodes plain_text event_and_more (decode plain_text event_and_more)
decode-Decodes_example = decode-Decodes plain_text event_and_more

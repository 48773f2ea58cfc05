-- ===== src/Relayer/Decode.antt =====
-- `SseDecoder` of crates/relayer/src/sync/streams.rs. The checks of UTF-8 and of JSON, and the trimming
-- of white space and of the prefix, are the standard library's and serde's: parameters.
pub mod Frames
mod Tests
use essential_node.Relayer.Errors.{InternalError, recoverable, stream_error}
use essential_node.Prelude.{
  ℕ, suc, ◌+◌, Bool, ◌&&◌, Option, none, some, [], ◌∷◌, ◌==◌, if◌then◌else◌, take, drop, Result, ok,
  err, Bytes, bytes_eq,
}

pub record Text (T : Type 0) : Type 0 where
  pub is_utf8 : Bytes → Bool
  -- `trim_start_matches("data: ")`, then `trim`
  pub trimmed : Bytes → Bytes
  pub from_str : Bytes → Option T

abbrev pub newline : ℕ
newline = 10

-- `position` of two newlines in a row
unfoldable pub find_end : Bytes → Option ℕ
find_end [] = none
find_end (a ∷ []) = none
find_end (a ∷ b ∷ bs) =
    let rest = find_end (b ∷ bs) in
    if (a == newline) && (b == newline)
    then some 0
    else elim rest [ none ↦ none | some n ↦ some (suc n) ]

abbrev pub colon : Bytes
colon = b':' ∷ []

module _ {T : Type 0} (t : Text T) where
  -- what the text of an event decodes to
  unfoldable pub decode_text : Bytes → Result InternalError (Option T)
  decode_text s = elim (t.from_str s) [
    | some item ↦ ok (some item)
    | none ↦ if bytes_eq s colon then ok none else err (recoverable (stream_error s))
  ]

  -- what the bytes of an event decode to
  unfoldable pub decode_event : Bytes → Result InternalError (Option T)
  unfolding decode_text
  decode_event event = if t.is_utf8 event then decode_text (t.trimmed event) else ok none

  -- the result, and the buffer after the call
  unfoldable pub decode : Bytes → Result InternalError (Option T) × Bytes
  unfolding decode_event find_end
  decode buf = elim (find_end buf) [
    | none ↦ (ok none, buf)
    | some end ↦ (decode_event (take end buf), drop (end + 2) buf)
  ]

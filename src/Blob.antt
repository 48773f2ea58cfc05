-- ===== src/Blob.antt =====
-- Words to blobs and back: `blob_from_words` and `words_from_blob` of crates/node-db/src/lib.rs,
-- `key_words_from_bytes` of crates/node-api/src/endpoint.rs and `padded_words_from_bytes` of
-- crates/node-types/src/lib.rs, over the slice methods `chunks_exact` and `chunks`.
pub mod Chunks
pub mod RoundTrip
mod Tests
use essential_node.Convert.{Convert}
use essential_node.Prelude.{
  ℕ, zero, suc, List, [], ◌∷◌, map, ltb, ◌==◌, if◌then◌else◌, length, take, drop, flat, ℤ, Bytes,
}

-- `chunks_exact(n)`: the bytes left over are dropped. The fuel is the length.
unfoldable pub chunks_exact_loop : ℕ → ℕ → Bytes → List Bytes
chunks_exact_loop zero n bs = []
chunks_exact_loop (suc fuel) n bs =
    let rest = chunks_exact_loop fuel n (drop n bs) in
    if ltb (length bs) n then [] else take n bs ∷ rest

unfoldable pub chunks_exact : ℕ → Bytes → List Bytes
unfolding chunks_exact_loop
chunks_exact n bs = chunks_exact_loop (length bs) n bs

-- `chunks(n)`: the last chunk may be shorter.
unfoldable pub chunks_loop : ℕ → ℕ → Bytes → List Bytes
chunks_loop zero n bs = []
chunks_loop (suc fuel) n bs =
    let rest = chunks_loop fuel n (drop n bs) in if length bs == 0 then [] else take n bs ∷ rest

unfoldable pub chunks : ℕ → Bytes → List Bytes
unfolding chunks_loop
chunks n bs = chunks_loop (length bs) n bs

module _ (c : Convert) where
  unfoldable pub blob_from_words : List ℤ → Bytes
  blob_from_words words = flat c.bytes_from_word words

  unfoldable pub words_from_blob : Bytes → List ℤ
  unfolding chunks_exact
  words_from_blob bytes = map c.word_from_bytes (chunks_exact 8 bytes)

  unfoldable pub key_words_from_bytes : Bytes → List ℤ
  unfolding chunks_exact
  key_words_from_bytes key = map c.word_from_bytes (chunks_exact 8 key)

  unfoldable pub padded_words_from_bytes : Bytes → List ℤ
  unfolding chunks
  padded_words_from_bytes bytes = map c.word_from_bytes_slice (chunks 8 bytes)

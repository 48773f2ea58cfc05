-- ===== src/Blob/RoundTrip.antt =====
-- Words survive a stay in the database: `words_from_blob` after `blob_from_words`
-- (crates/node-db/src/lib.rs), and what the padded words of a byte string hold.
use essential_node.Blob.{
  chunks_exact, chunks, blob_from_words, words_from_blob, key_words_from_bytes,
  padded_words_from_bytes,
}
use essential_node.Blob.Chunks.{
  HaveLength, chunks_exact-flat, length-chunks_exact, length-chunks, padded_words-bytes,
}
use essential_node.Convert.{Convert, IsConvert, IsBytes, AreWords}
use essential_node.Prelude.{
  ◌/◌, ◌≡◌, refl, sym, ap, ◌∙◌, List, [], ◌∷◌, map, arith, length, take, replicate,
  take-length_append, flat, length-map, ℤ, Bytes, ◌+◌,
}

module _ (c : Convert) (laws : IsConvert c) where
  words_HaveLength : (ws : List ℤ) → AreWords ws → HaveLength c.bytes_from_word 8 ws
  words_HaveLength [] h = tt
  words_HaveLength (w ∷ ws) h = (laws.length-bytes w h.0, words_HaveLength ws h.1)

  words_back : (ws : List ℤ) → AreWords ws → map c.word_from_bytes (map c.bytes_from_word ws) ≡ ws
  words_back [] h = refl
  words_back (w ∷ ws) h = cc (laws.bytes_back w h.0, words_back ws h.1)

  -- Every list of words is read back from its blob, by the database's reader and by the one that
  -- the API applies to the key of a request.
  pub words_from_blob-blob_from_words :
      (ws : List ℤ)
      → AreWords ws
      → (words_from_blob c (blob_from_words c ws) ≡ ws)
        × (key_words_from_bytes c (blob_from_words c ws) ≡ ws)
  unfolding words_from_blob blob_from_words key_words_from_bytes
  words_from_blob-blob_from_words ws h =
      let back : map c.word_from_bytes (chunks_exact 8 (flat c.bytes_from_word ws)) ≡ ws =
        ap (map c.word_from_bytes)
          (chunks_exact-flat c.bytes_from_word 8 (omega arith) ws (words_HaveLength ws h))
        ∙ words_back ws h in
      (back, back)

  -- Two lists of words with one blob are one list.
  pub blob_from_words_injective :
      (vs ws : List ℤ)
      → AreWords vs
      → AreWords ws
      → blob_from_words c vs ≡ blob_from_words c ws
      → vs ≡ ws
  blob_from_words_injective vs ws hv hw e =
      sym ((words_from_blob-blob_from_words vs hv).0)
      ∙ ap (words_from_blob c) e
      ∙ (words_from_blob-blob_from_words ws hw).0

  -- The bytes of the padded words of a byte string, cut to its length, are the byte string, where
  -- all of it are bytes.
  pub take-padded_words :
      (bs : Bytes)
      → IsBytes bs
      → take (length bs) (flat c.bytes_from_word (padded_words_from_bytes c bs)) ≡ bs
  unfolding padded_words_from_bytes
  take-padded_words bs h =
      let p = padded_words-bytes c laws bs h in rw p.2 (take-length_append bs (replicate p.0 0))

-- Byte strings of one length with the same padded words are one byte string.
pub padded_words_injective :
    (c : Convert)
    → IsConvert c
    → (xs bs : Bytes) → IsBytes xs
    → IsBytes bs
    → length xs ≡ length bs
    → padded_words_from_bytes c xs ≡ padded_words_from_bytes c bs
    → xs ≡ bs
padded_words_injective c laws xs bs ha hb l e =
    sym (take-padded_words c laws xs ha) ∙ cc (l, e) ∙ take-padded_words c laws bs hb

pub length-padded_words :
    (c : Convert) (bs : Bytes) → length (padded_words_from_bytes c bs) ≡ (length bs + 7) / 8
unfolding padded_words_from_bytes
length-padded_words c bs = length-map c.word_from_bytes_slice (chunks 8 bs) ∙ length-chunks bs

-- A blob of any length gives one word for each eight bytes, and the bytes behind them are dropped.
pub length-words_from_blob :
    (c : Convert) (bs : Bytes) → length (words_from_blob c bs) ≡ length bs / 8
unfolding words_from_blob
length-words_from_blob c bs =
    length-map c.word_from_bytes (chunks_exact 8 bs) ∙ length-chunks_exact bs

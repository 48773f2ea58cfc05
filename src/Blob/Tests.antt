-- ===== src/Blob/Tests.antt =====
-- The theorems about blobs, at a few words and bytes.
use essential_node.Convert.{IsBytes}
use essential_node.Convert.BigEndian.{big_endian, big_endian-IsConvert}
use essential_node.Blob.{
  blob_from_words, words_from_blob, key_words_from_bytes, padded_words_from_bytes,
}
use essential_node.Blob.RoundTrip.{
  words_from_blob-blob_from_words, take-padded_words, length-words_from_blob,
}
use essential_node.Prelude.{◌≡◌, List, [], ◌∷◌, arith, length, take, flat, ℤ, pos, negsuc, Bytes}

abbrev two_words : List ℤ
two_words = pos 7 ∷ negsuc 0 ∷ []

words_from_blob-blob_from_words_example :
    (words_from_blob big_endian (blob_from_words big_endian two_words) ≡ two_words)
    × (key_words_from_bytes big_endian (blob_from_words big_endian two_words) ≡ two_words)
words_from_blob-blob_from_words_example =
    words_from_blob-blob_from_words big_endian big_endian-IsConvert two_words
      (omega arith, (omega arith, tt))

abbrev nine_bytes : Bytes
nine_bytes = 1 ∷ 2 ∷ 3 ∷ 4 ∷ 5 ∷ 6 ∷ 7 ∷ 8 ∷ 9 ∷ []

nine_bytes-IsBytes : IsBytes nine_bytes
nine_bytes-IsBytes = ground arith

take-padded_words_example :
    take 9 (flat big_endian.bytes_from_word (padded_words_from_bytes big_endian nine_bytes))
    ≡ nine_bytes
take-padded_words_example =
    take-padded_words big_endian big_endian-IsConvert nine_bytes nine_bytes-IsBytes

length-words_from_blob_example : length (words_from_blob big_endian nine_bytes) ≡ 1
length-words_from_blob_example = length-words_from_blob big_endian nine_bytes

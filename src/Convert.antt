-- ===== src/Convert.antt =====
-- The conversions of the crate `essential_types::convert`, which the node only calls: parameters of
-- the model, with the documented behaviour that it relies on as `IsConvert`.
pub mod BigEndian
use essential_node.Prelude.{
  ◌-◌, ◌≤◌, ◌<◌, ◌≡◌, List, [], ◌∷◌, ◌++◌, length, replicate, ℤ, IsWord, Bytes,
}

-- every byte of a blob is a `u8`
abbrev pub IsBytes : Bytes → Type 0
IsBytes [] = Unit {0}
IsBytes (b ∷ bs) = (b < 256) × IsBytes bs

abbrev pub AreWords : List ℤ → Type 0
AreWords [] = Unit {0}
AreWords (w ∷ ws) = IsWord w × AreWords ws

pub record Convert : Type 0 where
  pub bytes_from_word : ℤ → Bytes
  pub word_from_bytes : Bytes → ℤ
  pub word_from_bytes_slice : Bytes → ℤ
  pub word_4_from_u8_32 : Bytes → List ℤ

-- A word has eight bytes and is read back from them; a slice of at most eight bytes is a word whose
-- bytes are the slice, with zeros behind it.
pub record IsConvert (c : Convert) : Type 0 where
  pub length-bytes : (w : ℤ) → IsWord w → length (c.bytes_from_word w) ≡ 8
  pub bytes_back : (w : ℤ) → IsWord w → c.word_from_bytes (c.bytes_from_word w) ≡ w
  pub slice_word : (bs : Bytes) → IsBytes bs → length bs ≤ 8 → IsWord (c.word_from_bytes_slice bs)
  pub slice_bytes :
      (bs : Bytes)
      → IsBytes bs
      → length bs ≤ 8
      → c.bytes_from_word (c.word_from_bytes_slice bs) ≡ bs ++ replicate (8 - length bs) 0

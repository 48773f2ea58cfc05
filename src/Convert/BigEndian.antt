-- ===== src/Convert/BigEndian.antt =====
-- Two's complement, big-endian: an instance of the conversions that meets their laws, for tests.
use essential_node.Convert.{IsConvert, length, Convert, IsBytes}
use essential_node.Prelude.{
  ◌∙◌, ap, ℕ, ◌+◌, ◌-◌, ◌*◌, ◌/◌, ◌%◌, ◌^◌, ◌<◌, ◌≡◌, [], ◌∷◌, ◌++◌, arith, ltb, if◌then◌else◌,
  take, drop, replicate, ℤ, pos, negsuc, IsWord, Bytes, ◌≤◌, refl,
}

abbrev to_u64 : ℤ → ℕ
to_u64 (pos n) = n
to_u64 (negsuc n) = 0xffff_ffff_ffff_ffff - n

abbrev of_u64 : ℕ → ℤ
of_u64 u = if ltb u 0x8000_0000_0000_0000 then pos u else negsuc (0xffff_ffff_ffff_ffff - u)

abbrev be_bytes : ℕ → Bytes
be_bytes u =
    u / 2 ^ 56
    ∷ u / 2 ^ 48 % 256
    ∷ u / 2 ^ 40 % 256
    ∷ u / 2 ^ 32 % 256
    ∷ u / 2 ^ 24 % 256
    ∷ u / 2 ^ 16 % 256
    ∷ u / 2 ^ 8 % 256
    ∷ u % 256
    ∷ []

abbrev of_be_bytes : Bytes → ℕ
of_be_bytes (a ∷ b ∷ c ∷ d ∷ e ∷ f ∷ g ∷ h ∷ []) =
    a * 2 ^ 56 + b * 2 ^ 48 + c * 2 ^ 40 + d * 2 ^ 32 + e * 2 ^ 24 + f * 2 ^ 16 + g * 2 ^ 8 + h
of_be_bytes _ = 0

abbrev pub big_endian : Convert
big_endian = record {
  bytes_from_word = λ w. be_bytes (to_u64 w);
  word_from_bytes = λ bs. of_u64 (of_be_bytes bs);
  word_from_bytes_slice = λ bs. of_u64 (of_be_bytes (take 8 (bs ++ replicate 8 0)));
  word_4_from_u8_32 = λ bs.
      of_u64 (of_be_bytes (take 8 bs))
      ∷ of_u64 (of_be_bytes (take 8 (drop 8 bs)))
      ∷ of_u64 (of_be_bytes (take 8 (drop 16 bs)))
      ∷ of_u64 (of_be_bytes (drop 24 bs))
      ∷ [];
}

u64_back : (w : ℤ) → IsWord w → of_u64 (to_u64 w) ≡ w
u64_back (pos n) h = ground arith
u64_back (negsuc n) h = ground arith

to_u64-of_u64 : (u : ℕ) → u < 2 ^ 64 → to_u64 (of_u64 u) ≡ u
to_u64-of_u64 u h = ground arith

of_u64-IsWord : (u : ℕ) → u < 2 ^ 64 → IsWord (of_u64 u)
of_u64-IsWord u h = ground arith

of_be_bytes-be_bytes : (u : ℕ) → u < 2 ^ 64 → of_be_bytes (be_bytes u) ≡ u
of_be_bytes-be_bytes u h = omega arith

be_bytes-of_be_bytes :
    (a b c d e f g h : ℕ)
    → IsBytes (a ∷ b ∷ c ∷ d ∷ e ∷ f ∷ g ∷ h ∷ [])
    → (of_be_bytes (a ∷ b ∷ c ∷ d ∷ e ∷ f ∷ g ∷ h ∷ []) < 2 ^ 64)
      × (be_bytes (of_be_bytes (a ∷ b ∷ c ∷ d ∷ e ∷ f ∷ g ∷ h ∷ []))
          ≡ a ∷ b ∷ c ∷ d ∷ e ∷ f ∷ g ∷ h ∷ [])
be_bytes-of_be_bytes a b c d e f g h hs = (omega arith, ground arith)

to_u64-lt : (w : ℤ) → IsWord w → to_u64 w < 2 ^ 64
to_u64-lt (pos n) h = omega arith
to_u64-lt (negsuc n) h = omega arith

-- the eight bytes of a slice, with zeros behind it
module _ (a b c d e f g h : ℕ) (hs : IsBytes (a ∷ b ∷ c ∷ d ∷ e ∷ f ∷ g ∷ h ∷ [])) where
  eight-IsWord : IsWord (of_u64 (of_be_bytes (a ∷ b ∷ c ∷ d ∷ e ∷ f ∷ g ∷ h ∷ [])))
  eight-IsWord = of_u64-IsWord _ (be_bytes-of_be_bytes a b c d e f g h hs).0

  eight_bytes :
      be_bytes (to_u64 (of_u64 (of_be_bytes (a ∷ b ∷ c ∷ d ∷ e ∷ f ∷ g ∷ h ∷ []))))
      ≡ a ∷ b ∷ c ∷ d ∷ e ∷ f ∷ g ∷ h ∷ []
  eight_bytes =
      ap be_bytes (to_u64-of_u64 _ (be_bytes-of_be_bytes a b c d e f g h hs).0)
      ∙ (be_bytes-of_be_bytes a b c d e f g h hs).1

big_endian_slice-IsWord :
    (bs : Bytes) → IsBytes bs → length bs ≤ 8 → IsWord (big_endian.word_from_bytes_slice bs)
big_endian_slice-IsWord [] hs l = eight-IsWord 0 0 0 0 0 0 0 0 (omega arith)
big_endian_slice-IsWord (a ∷ []) hs l = eight-IsWord a 0 0 0 0 0 0 0 (omega arith)
big_endian_slice-IsWord (a ∷ b ∷ []) hs l = eight-IsWord a b 0 0 0 0 0 0 (omega arith)
big_endian_slice-IsWord (a ∷ b ∷ c ∷ []) hs l = eight-IsWord a b c 0 0 0 0 0 (omega arith)
big_endian_slice-IsWord (a ∷ b ∷ c ∷ d ∷ []) hs l = eight-IsWord a b c d 0 0 0 0 (omega arith)
big_endian_slice-IsWord (a ∷ b ∷ c ∷ d ∷ e ∷ []) hs l = eight-IsWord a b c d e 0 0 0 (omega arith)
big_endian_slice-IsWord (a ∷ b ∷ c ∷ d ∷ e ∷ f ∷ []) hs l =
    eight-IsWord a b c d e f 0 0 (omega arith)
big_endian_slice-IsWord (a ∷ b ∷ c ∷ d ∷ e ∷ f ∷ g ∷ []) hs l =
    eight-IsWord a b c d e f g 0 (omega arith)
big_endian_slice-IsWord (a ∷ b ∷ c ∷ d ∷ e ∷ f ∷ g ∷ h ∷ []) hs l =
    eight-IsWord a b c d e f g h (omega arith)
big_endian_slice-IsWord (a ∷ b ∷ c ∷ d ∷ e ∷ f ∷ g ∷ h ∷ i ∷ r) hs l = absurd (omega arith)

big_endian_slice_bytes :
    (bs : Bytes)
    → IsBytes bs
    → length bs ≤ 8
    → big_endian.bytes_from_word (big_endian.word_from_bytes_slice bs)
      ≡ bs ++ replicate (8 - length bs) 0
big_endian_slice_bytes [] hs l = eight_bytes 0 0 0 0 0 0 0 0 (omega arith)
big_endian_slice_bytes (a ∷ []) hs l = eight_bytes a 0 0 0 0 0 0 0 (omega arith)
big_endian_slice_bytes (a ∷ b ∷ []) hs l = eight_bytes a b 0 0 0 0 0 0 (omega arith)
big_endian_slice_bytes (a ∷ b ∷ c ∷ []) hs l = eight_bytes a b c 0 0 0 0 0 (omega arith)
big_endian_slice_bytes (a ∷ b ∷ c ∷ d ∷ []) hs l = eight_bytes a b c d 0 0 0 0 (omega arith)
big_endian_slice_bytes (a ∷ b ∷ c ∷ d ∷ e ∷ []) hs l = eight_bytes a b c d e 0 0 0 (omega arith)
big_endian_slice_bytes (a ∷ b ∷ c ∷ d ∷ e ∷ f ∷ []) hs l = eight_bytes a b c d e f 0 0 (omega arith)
big_endian_slice_bytes (a ∷ b ∷ c ∷ d ∷ e ∷ f ∷ g ∷ []) hs l =
    eight_bytes a b c d e f g 0 (omega arith)
big_endian_slice_bytes (a ∷ b ∷ c ∷ d ∷ e ∷ f ∷ g ∷ h ∷ []) hs l =
    eight_bytes a b c d e f g h (omega arith)
big_endian_slice_bytes (a ∷ b ∷ c ∷ d ∷ e ∷ f ∷ g ∷ h ∷ i ∷ r) hs l = absurd (omega arith)

pub big_endian-IsConvert : IsConvert big_endian
big_endian-IsConvert = record {
  length-bytes = λ w h. refl;
  bytes_back = λ w h. ap of_u64 (of_be_bytes-be_bytes (to_u64 w) (to_u64-lt w h)) ∙ u64_back w h;
  slice_word = big_endian_slice-IsWord;
  slice_bytes = big_endian_slice_bytes;
}

-- ===== src/Blob/Chunks.antt =====
-- What the chunks of a byte string are.
use essential_node.Blob.{chunks_exact_loop, chunks_exact, chunks_loop, chunks}
use essential_node.Convert.{Convert, IsConvert, IsBytes}
use essential_node.Prelude.{
  take-append-drop, append_assoc, leb→le, length-take, ◌-◌, leb, append-nil, ℕ, zero, suc, ◌/◌, ◌≤◌,
  ◌<◌, ◌≡◌, refl, ap, subst, ◌∙◌, inl, inr, List, [], ◌∷◌, ◌++◌, map, arith, ltb, ltb→lt,
  Bool-cases, length, take, drop, replicate, length-append, take-length_append, drop-length_append,
  length-drop, flat, Bytes, ◌+◌,
}

abbrev pub HaveLength {ℓ} : {A : Type ℓ} → (A → Bytes) → ℕ → List A → Type 0
HaveLength f n [] = Unit {0}
HaveLength f n (x ∷ xs) = (length (f x) ≡ n) × HaveLength f n xs

chunks_exact_loop-append :
    (fuel : ℕ) (xs ys : Bytes)
    → chunks_exact_loop (suc fuel) (length xs) (xs ++ ys)
      ≡ xs ∷ chunks_exact_loop fuel (length xs) ys
unfolding chunks_exact_loop
chunks_exact_loop-append fuel xs ys =
    rw (take-length_append xs ys, drop-length_append xs ys) (ground (arith, length-append xs ys))

chunks_exact_loop-nil : (fuel n : ℕ) → 0 < n → chunks_exact_loop fuel n [] ≡ []
unfolding chunks_exact_loop
chunks_exact_loop-nil zero n h = refl
chunks_exact_loop-nil (suc fuel) n h = ground arith

module _ {ℓ} {A : Type ℓ} (f : A → Bytes) (n : ℕ) (pos_n : 0 < n) where
  -- enough fuel cuts a concatenation of pieces of `n` bytes into these pieces
  chunks_exact_loop-flat :
      (fuel : ℕ) (xs : List A)
      → HaveLength f n xs
      → length (flat f xs) ≤ fuel
      → chunks_exact_loop fuel n (flat f xs) ≡ map f xs
  chunks_exact_loop-flat fuel [] all h = chunks_exact_loop-nil fuel n pos_n
  chunks_exact_loop-flat zero (x ∷ xs) all h =
      absurd (omega (arith, all.0, length-append (f x) (flat f xs)))
  chunks_exact_loop-flat (suc fuel) (x ∷ xs) all h =
      subst
        (λ k.
          chunks_exact_loop (suc fuel) k (f x ++ flat f xs)
          ≡ f x ∷ chunks_exact_loop fuel k (flat f xs))
        all.0 (chunks_exact_loop-append fuel (f x) (flat f xs))
      ∙ ap (◌∷◌ (f x)) (
          chunks_exact_loop-flat fuel xs all.1
            (omega (arith, all.0, length-append (f x) (flat f xs))))

  pub chunks_exact-flat : (xs : List A) → HaveLength f n xs → chunks_exact n (flat f xs) ≡ map f xs
  unfolding chunks_exact
  chunks_exact-flat xs all = chunks_exact_loop-flat (length (flat f xs)) xs all (omega arith)

length-chunks_exact_loop :
    (fuel : ℕ) (bs : Bytes)
    → length bs ≤ fuel
    → length (chunks_exact_loop fuel 8 bs) ≡ length bs / 8
unfolding chunks_exact_loop
length-chunks_exact_loop zero bs h = omega arith
length-chunks_exact_loop (suc fuel) bs h = elim (Bool-cases (ltb (length bs) 8)) [
  | inl short ↦ rw short (omega (arith, ltb→lt (length bs) 8 short))
  | inr long ↦ rw long (ground (arith, length-chunks_exact_loop fuel (drop 8 bs), length-drop 8 bs))
]

-- as many chunks as fit whole
pub length-chunks_exact : (bs : Bytes) → length (chunks_exact 8 bs) ≡ length bs / 8
unfolding chunks_exact
length-chunks_exact bs = length-chunks_exact_loop (length bs) bs (omega arith)

IsBytes-take : (n : ℕ) (bs : Bytes) → IsBytes bs → IsBytes (take n bs)
IsBytes-take zero bs h = tt
IsBytes-take (suc n) [] h = tt
IsBytes-take (suc n) (b ∷ bs) h = (h.0, IsBytes-take n bs h.1)

IsBytes-drop : (n : ℕ) (bs : Bytes) → IsBytes bs → IsBytes (drop n bs)
IsBytes-drop zero bs h = h
IsBytes-drop (suc n) [] h = tt
IsBytes-drop (suc n) (b ∷ bs) h = IsBytes-drop n bs h.1

chunks_loop-nil : (fuel n : ℕ) → chunks_loop fuel n [] ≡ []
unfolding chunks_loop
chunks_loop-nil zero n = refl
chunks_loop-nil (suc fuel) n = ground arith

chunks_loop-cons :
    (fuel b : ℕ) (bs : Bytes)
    → chunks_loop (suc fuel) 8 (b ∷ bs) ≡ take 8 (b ∷ bs) ∷ chunks_loop fuel 8 (drop 8 (b ∷ bs))
unfolding chunks_loop
chunks_loop-cons fuel b bs = ground arith

length-chunks_loop :
    (fuel : ℕ) (bs : Bytes)
    → length bs ≤ fuel
    → length (chunks_loop fuel 8 bs) ≡ (length bs + 7) / 8
unfolding chunks_loop
length-chunks_loop zero [] h = omega arith
length-chunks_loop zero (b ∷ bs) h = absurd (omega arith)
length-chunks_loop (suc fuel) [] h = ground arith
length-chunks_loop (suc fuel) (b ∷ bs) h =
    ap length (chunks_loop-cons fuel b bs)
    ∙ omega (
      arith,
      length-chunks_loop fuel (drop 8 (b ∷ bs)) (omega (arith, length-drop 8 (b ∷ bs))),
      length-drop 8 (b ∷ bs),
    )

-- as many chunks as are begun
pub length-chunks : (bs : Bytes) → length (chunks 8 bs) ≡ (length bs + 7) / 8
unfolding chunks
length-chunks bs = length-chunks_loop (length bs) bs (omega arith)

drop_short : (n : ℕ) (bs : Bytes) → length bs ≤ n → drop n bs ≡ []
drop_short zero [] h = refl
drop_short zero (b ∷ bs) h = absurd (omega arith)
drop_short (suc n) [] h = refl
drop_short (suc n) (b ∷ bs) h = drop_short n bs (omega arith)

take_short : (n : ℕ) (bs : Bytes) → length bs ≤ n → take n bs ≡ bs
take_short zero [] h = refl
take_short zero (b ∷ bs) h = absurd (omega arith)
take_short (suc n) [] h = refl
take_short (suc n) (b ∷ bs) h = ap (◌∷◌ b) (take_short n bs (omega arith))

module _ (c : Convert) (laws : IsConvert c) where
  abbrev word_bytes : Bytes → Bytes
  word_bytes bs = c.bytes_from_word (c.word_from_bytes_slice bs)

  abbrev padded_bytes : ℕ → Bytes → Bytes
  padded_bytes fuel bs =
      flat c.bytes_from_word (map c.word_from_bytes_slice (chunks_loop fuel 8 bs))

  whole_chunk : (xs : Bytes) → IsBytes xs → length xs ≡ 8 → word_bytes xs ≡ xs
  whole_chunk xs h e =
      laws.slice_bytes xs h (omega arith)
      ∙ ap (λ k. xs ++ replicate k 0) {y = 0} (omega arith)
      ∙ append-nil xs

  long_step :
      (fuel b : ℕ) (bs : Bytes)
      → IsBytes (b ∷ bs)
      → 8 ≤ length (b ∷ bs)
      → (pad : ℕ) → padded_bytes fuel (drop 8 (b ∷ bs)) ≡ drop 8 (b ∷ bs) ++ replicate pad 0
      → padded_bytes (suc fuel) (b ∷ bs) ≡ (b ∷ bs) ++ replicate pad 0
  long_step fuel b bs h long pad e = rw (chunks_loop-cons fuel b bs) (
      cc (
        e,
        whole_chunk (take 8 (b ∷ bs)) (IsBytes-take 8 (b ∷ bs) h)
            (omega (arith, length-take 8 (b ∷ bs))),
        append_assoc (take 8 (b ∷ bs)) (drop 8 (b ∷ bs)) (replicate pad 0),
        take-append-drop 8 (b ∷ bs),
      ))

  short_step :
      (fuel b : ℕ) (bs : Bytes)
      → IsBytes (b ∷ bs)
      → length (b ∷ bs) ≤ 8
      → padded_bytes (suc fuel) (b ∷ bs) ≡ (b ∷ bs) ++ replicate (8 - length (b ∷ bs)) 0
  short_step fuel b bs h short =
      rw (chunks_loop-cons fuel b bs, drop_short 8 (b ∷ bs) short, take_short 8 (b ∷ bs) short)
        (rw (chunks_loop-nil fuel 8, append-nil) (laws.slice_bytes (b ∷ bs) h short))

  -- the bytes of the padded words are the bytes with zeros behind them
  chunks_loop-bytes :
      (fuel : ℕ) (bs : Bytes)
      → IsBytes bs
      → length bs ≤ fuel
      → (pad : ℕ) × (pad < 8) × (padded_bytes fuel bs ≡ bs ++ replicate pad 0)
  unfolding chunks_loop
  chunks_loop-bytes zero [] h l = (0, omega arith, refl)
  chunks_loop-bytes zero (b ∷ bs) h l = absurd (omega arith)
  chunks_loop-bytes (suc fuel) [] h l = (0, omega arith, ground arith)
  chunks_loop-bytes (suc fuel) (b ∷ bs) h l = elim (Bool-cases (leb 8 (suc (length bs)))) [
    | inl long ↦
        let rest =
          chunks_loop-bytes fuel (drop 8 (b ∷ bs)) (IsBytes-drop 8 (b ∷ bs) h)
            (omega (arith, length-drop 8 (b ∷ bs))) in
        (rest.0, rest.1, long_step fuel b bs h (leb→le _ _ long) rest.0 rest.2)
    | inr short ↦ (8 - suc (length bs), omega arith, short_step fuel b bs h (ground arith))
  ]

  pub padded_words-bytes :
      (bs : Bytes)
      → IsBytes bs
      → (pad : ℕ) × (pad < 8)
        × (flat c.bytes_from_word (map c.word_from_bytes_slice (chunks 8 bs))
            ≡ bs ++ replicate pad 0)
  unfolding chunks
  padded_words-bytes bs h = chunks_loop-bytes (length bs) bs h (omega arith)

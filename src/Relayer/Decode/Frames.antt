-- ===== src/Relayer/Decode/Frames.antt =====
-- An event ends at the first two newlines in a row, and what stands behind them stays in the buffer.
use essential_node.Relayer.Errors.{InternalError}
use essential_node.Relayer.Decode.{Text, newline, find_end, decode_event, decode}
use essential_node.Prelude.{
  ◌≡◌, ◌≢◌, false, ◌&&◌, some, [], ◌∷◌, ◌++◌, ◌==◌, length, Bytes, ℕ, ◌+◌, refl, ap, ◌⊎◌, inl, inr,
  Option, none, arith, Bool-cases, drop, take-length_append, Result, ok, suc, ◌∙◌,
}

-- no two newlines in a row, and no newline at the end
abbrev pub IsEvent : Bytes → Type 0
IsEvent [] = Unit {0}
IsEvent (a ∷ []) = a ≢ newline
IsEvent (a ∷ b ∷ bs) = ((a == newline) && (b == newline) ≡ false) × IsEvent (b ∷ bs)

abbrev pub HasNoSeparator : Bytes → Type 0
HasNoSeparator [] = Unit {0}
HasNoSeparator (a ∷ []) = Unit {0}
HasNoSeparator (a ∷ b ∷ bs) = ((a == newline) && (b == newline) ≡ false) × HasNoSeparator (b ∷ bs)

-- an event with its separator, and what follows
abbrev Splits : Bytes → Bytes → Bytes → Type 0
Splits buf event rest =
    (buf ≡ event ++ newline ∷ newline ∷ rest) × IsEvent event × (find_end buf ≡ some (length event))

abbrev Scans : Bytes → Type 0
Scans buf =
    ((find_end buf ≡ none) × HasNoSeparator buf)
    ⊎ ((event : Bytes) × (rest : Bytes) × Splits buf event rest)

-- a byte in front that does not open the separator
scan_cons :
    (a b : ℕ) (bs : Bytes)
    → (a == newline) && (b == newline) ≡ false
    → Scans (b ∷ bs)
    → Scans (a ∷ b ∷ bs)
unfolding find_end
scan_cons a b bs miss (inl (e, free)) = inl (rw (miss, e), (miss, free))
scan_cons a b bs miss (inr ([], rest, (shape, event, e))) =
    inr (a ∷ [], rest, (ap (◌∷◌ a) shape, ground arith, rw (miss, e)))
scan_cons a b bs miss (inr (c ∷ event', rest, (shape, event, e))) =
    inr (a ∷ c ∷ event', rest, (ap (◌∷◌ a) shape, (ground arith, event), rw (miss, e)))

scan : (buf : Bytes) → Scans buf
unfolding find_end
scan [] = inl (refl, tt)
scan (a ∷ []) = inl (refl, tt)
scan (a ∷ b ∷ bs) = elim (Bool-cases ((a == newline) && (b == newline))) [
  | inl hit ↦ inr ([], bs, (ground arith, tt, rw hit))
  | inr miss ↦ scan_cons a b bs miss (scan (b ∷ bs))
]

drop_event :
    (event rest : Bytes) → drop (length event + 2) (event ++ newline ∷ newline ∷ rest) ≡ rest
drop_event [] rest = refl
drop_event (e ∷ event) rest =
    ap (λ n. drop n ((e ∷ event) ++ newline ∷ newline ∷ rest)) {y = suc (length event + 2)}
      (omega arith)
    ∙ drop_event event rest

module _ {T : Type 0} (t : Text T) where
  abbrev pub Decodes : Bytes → Result InternalError (Option T) × Bytes → Type 0
  Decodes buf out =
      (HasNoSeparator buf × (out ≡ (ok none, buf)))
      ⊎ ((event : Bytes) × (rest : Bytes) × (buf ≡ event ++ newline ∷ newline ∷ rest)
          × IsEvent event
          × (out ≡ (decode_event t event, rest)))

  -- A buffer with no two newlines in a row stays as it is and nothing is decoded. Any other is an
  -- event, the first two newlines in a row and the rest; the event is decoded, well or not, and the
  -- rest is what stays in the buffer.
  pub decode-Decodes : (buf : Bytes) → Decodes buf (decode t buf)
  unfolding decode
  decode-Decodes buf = elim (scan buf) [
    | inl (e, free) ↦ inl (free, rw (e, decode))
    | inr (event, rest, (shape, first, e)) ↦ inr (
      event,
      rest,
      shape,
      first,
      rw (e, decode)
          (rw shape
            (rw (take-length_append event (newline ∷ newline ∷ rest), drop_event event rest))),
    )
  ]

-- ===== src/Validate/NextKey.antt =====
-- `next_key` of crates/node/src/validate.rs: the key after a key, as a number of 64-bit digits.
use mathlib.Core.List.{reverse, reverse-cons, reverse-reverse}
use mathlib.Core.Option
use essential_node.Types.{Key}
use essential_node.Convert.{AreWords}
use essential_node.Prelude.{
  ℕ, zero, suc, ◌+◌, ◌-◌, ◌*◌, ◌≡◌, Option, none, some, [], ◌∷◌, if◌then◌else◌, length, ℤ, pos,
  negsuc, eq_ℤ, word_max, word_min, inc, refl, sym, ap, subst, ◌∙◌, inl, inr, false, ◌++◌, arith,
  Bool-cases, length-append, eq_ℤ_iff, IsWord, ◌<◌,
}

-- the loop, from the last word to the first
unfoldable pub bump : Key → Option Key
bump [] = none
bump (w ∷ ws) =
    let rest = Option.map (◌∷◌ word_min) (bump ws) in
    if eq_ℤ w word_max then rest else some (inc w ∷ ws)

unfoldable pub next_key : Key → Option Key
unfolding bump
next_key key = Option.map reverse (bump (reverse key))

-- the place of a word in the order of words, from 0
abbrev pub word_rank : ℤ → ℕ
word_rank (pos n) = 0x8000_0000_0000_0000 + n
word_rank (negsuc n) = 0x7fff_ffff_ffff_ffff - n

-- the number whose digits are the ranks of the words, the first word the lowest digit
abbrev pub low_rank : Key → ℕ
low_rank [] = 0
low_rank (w ∷ ws) = word_rank w + 0x1_0000_0000_0000_0000 * low_rank ws

-- the same, the last word the lowest digit: keys of one length in their order
abbrev pub key_rank : Key → ℕ
key_rank key = low_rank (reverse key)

-- how many keys have this length
abbrev pub keys_of_length : ℕ → ℕ
keys_of_length zero = 1
keys_of_length (suc n) = 0x1_0000_0000_0000_0000 * keys_of_length n

-- What the successor of a key is: of the same length and next in order, or none after the last key.
abbrev pub Advances : Key → Option Key → Type 0
Advances key none = suc (key_rank key) ≡ keys_of_length (length key)
Advances key (some key') =
    (key_rank key' ≡ suc (key_rank key)) × (length key' ≡ length key) × AreWords key'

abbrev Bumped : Key → Option Key → Type 0
Bumped key none = suc (low_rank key) ≡ keys_of_length (length key)
Bumped key (some key') =
    (low_rank key' ≡ suc (low_rank key)) × (length key' ≡ length key) × AreWords key'

inc_rank :
    (w : ℤ)
    → IsWord w
    → eq_ℤ w word_max ≡ false
    → (word_rank (inc w) ≡ suc (word_rank w)) × IsWord (inc w)
inc_rank (pos n) h e = ground arith
inc_rank (negsuc zero) h e = omega arith
inc_rank (negsuc (suc n)) h e = omega arith

carry_Bumped :
    (ws : Key) (r : Option Key) → Bumped ws r → Bumped (word_max ∷ ws) (Option.map (◌∷◌ word_min) r)
carry_Bumped ws none h = omega arith
carry_Bumped ws (some k) h = (omega arith, omega arith, (omega arith, h.2))

bump-Bumped : (key : Key) → AreWords key → Bumped key (bump key)
unfolding bump
bump-Bumped [] h = omega arith
bump-Bumped (w ∷ ws) h = elim (Bool-cases (eq_ℤ w word_max)) [
  | inl last ↦ rw last (
      subst (λ v. Bumped (v ∷ ws) (Option.map (◌∷◌ word_min) (bump ws)))
        (sym ((eq_ℤ_iff w word_max).0 last)) (carry_Bumped ws (bump ws) (bump-Bumped ws h.1)))
  | inr more ↦
      let next = inc_rank w h.0 more in rw more (omega (arith, next.0), refl, (next.1, h.1))
]

AreWords-append : (xs ys : Key) → AreWords xs → AreWords ys → AreWords (xs ++ ys)
AreWords-append [] ys hx hy = hy
AreWords-append (x ∷ xs) ys hx hy = (hx.0, AreWords-append xs ys hx.1 hy)

AreWords-reverse : (xs : Key) → AreWords xs → AreWords (reverse xs)
AreWords-reverse [] h = tt
AreWords-reverse (x ∷ xs) h =
    rw (reverse-cons x xs)
      (AreWords-append (reverse xs) (x ∷ []) (AreWords-reverse xs h.1) (h.0, tt))

length-reverse : (key : Key) → length (reverse key) ≡ length key
length-reverse [] = refl
length-reverse (x ∷ xs) =
    let snoc = length-append (reverse xs) (x ∷ []) in
    rw (reverse-cons x xs) (omega (arith, snoc, length-reverse xs))

Advances-of_Bumped :
    (key : Key) (r : Option Key) → Bumped (reverse key) r → Advances key (Option.map reverse r)
Advances-of_Bumped key none h = h ∙ ap keys_of_length (length-reverse key)
Advances-of_Bumped key (some k) h = (
  ap low_rank (reverse-reverse k) ∙ h.0,
  length-reverse k ∙ h.1 ∙ length-reverse key,
  AreWords-reverse k h.2,
)

-- The next key of a key of words is the one after it among the keys of its length; where there is none,
-- the key is the last of them.
pub next_key-Advances : (key : Key) → AreWords key → Advances key (next_key key)
unfolding next_key
next_key-Advances key h =
    Advances-of_Bumped key (bump (reverse key)) (bump-Bumped (reverse key) (AreWords-reverse key h))

low_rank-lt : (key : Key) → AreWords key → low_rank key < keys_of_length (length key)
low_rank-lt [] h = omega arith
low_rank-lt (pos n ∷ ws) h = omega (arith, low_rank-lt ws h.1)
low_rank-lt (negsuc n ∷ ws) h = omega (arith, low_rank-lt ws h.1)

pub key_rank-lt : (key : Key) → AreWords key → key_rank key < keys_of_length (length key)
key_rank-lt key h =
    subst (λ n. key_rank key < keys_of_length n) (length-reverse key)
      (low_rank-lt (reverse key) (AreWords-reverse key h))

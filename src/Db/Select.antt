-- ===== src/Db/Select.antt =====
-- What tests find in a table that was appended to, and the ids of new rows.
use essential_node.Db.Listing.Range.{All}
use essential_node.Db.Sort.{insert_sorted}
use essential_node.Db.Statements.{next_id}
use essential_node.Prelude.{
  ℕ, suc, ◌≤◌, ◌<◌, ◌≡◌, refl, ap, ◌∙◌, inl, inr, Bool, true, false, ◌&&◌, none, some, List, [],
  ◌∷◌, ◌++◌, append-nil, arith, Bool-cases, select, find, map, exists, sym, subst, some-eq-some,
  some-eq-some,
}

module _ {A : Type 0} (p : A → Bool) where
  pub select-append : (xs ys : List A) → select p (xs ++ ys) ≡ select p xs ++ select p ys
  select-append [] ys = refl
  select-append (x ∷ xs) ys = elim (Bool-cases (p x)) [
    | inl hit ↦ rw hit (ap (◌∷◌ x) (select-append xs ys))
    | inr miss ↦ rw miss (select-append xs ys)
  ]

  pub select-none : (xs : List A) → All (λ x. p x ≡ false) xs → select p xs ≡ []
  select-none [] h = refl
  select-none (x ∷ xs) h = rw (h.0) (select-none xs h.1)

  pub select-every : (xs : List A) → All (λ x. p x ≡ true) xs → select p xs ≡ xs
  select-every [] h = refl
  select-every (x ∷ xs) h = rw (h.0) (ap (◌∷◌ x) (select-every xs h.1))

  -- rows that are new to the test
  pub select-grows :
      (xs ys : List A) → All (λ y. p y ≡ false) ys → select p (xs ++ ys) ≡ select p xs
  select-grows xs ys h =
      select-append xs ys ∙ ap (◌++◌ (select p xs)) (select-none ys h) ∙ append-nil (select p xs)

  -- rows that are all that pass the test
  pub select-new :
      (xs ys : List A)
      → All (λ x. p x ≡ false) xs
      → All (λ y. p y ≡ true) ys
      → select p (xs ++ ys) ≡ ys
  select-new xs ys h k = select-append xs ys ∙ rw (select-none xs h) (select-every ys k)

  pub find-grows : (xs ys : List A) {x : A} → find p xs ≡ some x → find p (xs ++ ys) ≡ some x
  find-grows [] ys e = absurd cc
  find-grows (z ∷ zs) ys {x} e = ground (arith, find-grows zs ys {x = x})

  pub find-none : (xs : List A) → All (λ x. p x ≡ false) xs → find p xs ≡ none
  find-none [] h = refl
  find-none (x ∷ xs) h = rw (h.0) (find-none xs h.1)

  -- rows that the test passes over
  pub find-same : (xs ys : List A) → All (λ y. p y ≡ false) ys → find p (xs ++ ys) ≡ find p xs
  find-same [] ys h = find-none ys h
  find-same (x ∷ xs) ys h = ground (arith, find-same xs ys h)

  pub find-All : (P : A → Type 0) (xs : List A) {x : A} → find p xs ≡ some x → All P xs → P x
  find-All P [] e h = absurd cc
  find-All P (y ∷ ys) {x} e h = elim (Bool-cases (p y)) [
    | inl hit ↦
        let same : some y ≡ some x = sym (rw hit refl) ∙ e in subst P (some-eq-some same) h.0
    | inr miss ↦ let rest : find p ys ≡ some x = sym (rw miss refl) ∙ e in find-All P ys rest h.1
  ]

  pub select-All : (P : A → Type 0) (xs : List A) → All P xs → All P (select p xs)
  select-All P [] h = tt
  select-All P (x ∷ xs) h = elim (Bool-cases (p x)) [
    | inl hit ↦ rw hit (h.0, select-All P xs h.1)
    | inr miss ↦ rw miss (select-All P xs h.1)
  ]

  pub find-new :
      (xs : List A) (y : A) → find p xs ≡ none → p y ≡ true → find p (xs ++ y ∷ []) ≡ some y
  find-new [] y e k = rw k refl
  find-new (z ∷ zs) y e k = ground (arith, find-new zs y)

  pub find-other :
      (xs : List A) (y : A) → find p xs ≡ none → p y ≡ false → find p (xs ++ y ∷ []) ≡ none
  find-other [] y e k = rw k refl
  find-other (z ∷ zs) y e k = ground (arith, find-other zs y)

  pub exists-none : (xs : List A) → All (λ x. p x ≡ false) xs → exists p xs ≡ false
  exists-none [] h = refl
  exists-none (x ∷ xs) h = rw (h.0) (exists-none xs h.1)

  pub find-select : (q : A → Bool) (xs : List A) → find (λ x. p x && q x) xs ≡ find q (select p xs)
  find-select q [] = refl
  find-select q (x ∷ xs) = ground (arith, find-select q xs)

pub All-imp :
    {A : Type 0} (P Q : A → Type 0) (xs : List A) → ((x : A) → P x → Q x) → All P xs → All Q xs
All-imp P Q [] step h = tt
All-imp P Q (x ∷ xs) step h = (step x h.0, All-imp P Q xs step h.1)

-- a list that is in order is sorted as it is
pub insert_sorted-first :
    {A : Type 0} (before : A → A → Bool) (x : A) (xs : List A)
    → All (λ y. before y x ≡ false) xs
    → insert_sorted before x xs ≡ x ∷ xs
insert_sorted-first before x [] h = refl
insert_sorted-first before x (y ∷ ys) h = rw (h.0) refl

next_id_pos : (is : List ℕ) → 1 ≤ next_id is
unfolding next_id
next_id_pos [] = omega arith
next_id_pos (i ∷ is) = omega (arith, next_id_pos is)

-- an id that a table has is below the next one
pub next_id-bound :
    {A : Type 0} (id : A → ℕ) (rows : List A) (n : ℕ)
    → next_id (map id rows) ≤ n
    → All (λ r. id r < n) rows
unfolding next_id
next_id-bound id [] n h = tt
next_id-bound id (r ∷ rows) n h = (omega arith, next_id-bound id rows n (omega arith))

pub next_id-append :
    {A : Type 0} (id : A → ℕ) (rows more : List A)
    → next_id (map id rows) ≤ next_id (map id (rows ++ more))
unfolding next_id
next_id-append id [] more = next_id_pos (map id more)
next_id-append id (r ∷ rows) more = omega (arith, next_id-append id rows more)

pub next_id-snoc :
    {A : Type 0} (id : A → ℕ) (rows : List A) (r : A)
    → next_id (map id rows) ≤ id r
    → next_id (map id (rows ++ r ∷ [])) ≡ suc (id r)
unfolding next_id
next_id-snoc id [] r h = omega arith
next_id-snoc id (q ∷ rows) r h = omega (arith, next_id-snoc id rows r)

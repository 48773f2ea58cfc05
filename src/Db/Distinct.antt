-- ===== src/Db/Distinct.antt =====
-- Rows of different addresses, which the scans, tests and sorts of a statement keep different.
use mathlib.Core.List.{
  mem-map_of_mem, mem-cons, not-mem-nil, Mem-prop, Nodup-cons, Mem, Perm, Nodup,
}
use mathlib.Core.List.Perm
use mathlib.Core.Logic.Or
use essential_node.Db.{BlockRow, Engine}
use essential_node.Db.Sort.{insert_sorted, sort}
use essential_node.Prelude.{
  ◌≡◌, refl, sym, subst, inl, inr, Bool, Option, some, List, [], ◌∷◌, map, Bool-cases, select, find,
  bytes_eq, bytes_eq_iff, bytes_eq_refl, bytes_eq_iff, bytes_eq,
}

-- a scan yields each row as often as it is there
pub record IsPermutation (e : Engine) : Type 1 where
  pub permutes : (A : Type 0) (xs : List A) → Perm (e.scan A xs) xs

-- the rows have different addresses, which is `UNIQUE` in the table
abbrev pub Distinct : List BlockRow → Type 0
Distinct rows = Nodup (map (λ b. b.block_address) rows)

Perm-insert_sorted :
    {A : Type 0} (before : A → A → Bool) (x : A) (xs : List A)
    → Perm (insert_sorted before x xs) (x ∷ xs)
Perm-insert_sorted before x [] = Perm.refl (x ∷ [])
Perm-insert_sorted before x (y ∷ ys) = elim (Bool-cases (before y x)) [
  | inl hit ↦ rw hit (Perm.trans (Perm.cons y (Perm-insert_sorted before x ys)) (Perm.swap x y ys))
  | inr miss ↦ rw miss (Perm.refl (x ∷ y ∷ ys))
]

pub Perm-sort : {A : Type 0} (before : A → A → Bool) (xs : List A) → Perm (sort before xs) xs
Perm-sort before [] = Perm.refl []
Perm-sort before (x ∷ xs) =
    Perm.trans (Perm-insert_sorted before x (sort before xs)) (Perm.cons x (Perm-sort before xs))

option_row_set : IsSet (Option BlockRow)
option_row_set = hlevel

-- a row is found by its address
pub find_block-Distinct :
    (rows : List BlockRow) (row : BlockRow)
    → Distinct rows
    → Mem row rows
    → find (λ b. bytes_eq b.block_address row.block_address) rows ≡ some row
find_block-Distinct [] row distinct there = absurd (not-mem-nil there)
find_block-Distinct (r ∷ rs) row distinct there =
    let (other, rest) = Nodup-cons.0 distinct in
    Or.elim (option_row_set _ _) (mem-cons.0 there)
      (λ (same : row ≡ r). rw same (rw (bytes_eq_refl r.block_address) refl))
      (λ (more : Mem row rs). elim (Bool-cases (bytes_eq r.block_address row.block_address)) [
        | inl hit ↦
            let same = (bytes_eq_iff r.block_address row.block_address).0 hit in
            absurd (
              other (
                subst (λ a. Mem a (map (λ b. b.block_address) rs)) (sym same)
                  (mem-map_of_mem (λ (b : BlockRow). b.block_address) more)))
        | inr miss ↦ rw miss (find_block-Distinct rs row rest more)
      ])

pub mem_of_select :
    {A : Type 0} (p : A → Bool) (xs : List A) (x : A) → Mem x (select p xs) → Mem x xs
mem_of_select p [] x there = there
mem_of_select p (y ∷ ys) x there = elim (Bool-cases (p y)) [
  | inl hit ↦
      let kept : select p (y ∷ ys) ≡ y ∷ select p ys = rw hit refl in
      Or.elim Mem-prop (mem-cons.0 (subst (Mem x) kept there)) (λ same. mem-cons.1 (Or.inl same))
        (λ more. mem-cons.1 (Or.inr (mem_of_select p ys x more)))
  | inr miss ↦
      let lost : select p (y ∷ ys) ≡ select p ys = rw miss refl in
      mem-cons.1 (Or.inr (mem_of_select p ys x (subst (Mem x) lost there)))
]

mem-select :
    {A B : Type 0} (f : A → B) (p : A → Bool) (xs : List A) (b : B)
    → Mem b (map f (select p xs))
    → Mem b (map f xs)
mem-select f p [] b there = there
mem-select f p (x ∷ xs) b there = elim (Bool-cases (p x)) [
  | inl hit ↦
      let kept : select p (x ∷ xs) ≡ x ∷ select p xs = rw hit refl in
      Or.elim Mem-prop (mem-cons.0 (subst (λ l. Mem b (map f l)) kept there))
        (λ same. mem-cons.1 (Or.inl same)) (λ more. mem-cons.1 (Or.inr (mem-select f p xs b more)))
  | inr miss ↦
      let lost : select p (x ∷ xs) ≡ select p xs = rw miss refl in
      mem-cons.1 (Or.inr (mem-select f p xs b (subst (λ l. Mem b (map f l)) lost there)))
]

pub Distinct-select :
    (p : BlockRow → Bool) (rows : List BlockRow) → Distinct rows → Distinct (select p rows)
Distinct-select p [] distinct = distinct
Distinct-select p (r ∷ rs) distinct =
    let (other, rest) = Nodup-cons.0 distinct in
    let kept = Distinct-select p rs rest in
    elim (Bool-cases (p r)) [
      | inl hit ↦ rw hit (
          Nodup-cons.1 (
            (λ there.
                other (mem-select (λ (b : BlockRow). b.block_address) p rs r.block_address there)),
            kept,
          ))
      | inr miss ↦ rw miss kept
    ]

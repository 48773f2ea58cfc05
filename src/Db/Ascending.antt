-- ===== src/Db/Ascending.antt =====
-- `ORDER BY` on a key that is different in each row: the order of the scan does not matter.
use mathlib.Core.List.{Mem, Perm, mem-cons, mem-cons_self, not-mem-nil}
use mathlib.Core.List.Perm
use mathlib.Core.Logic.Or
use essential_node.Db.Sort.{insert_sorted, sort}
use essential_node.Db.Distinct.{Perm-sort}
use essential_node.Db.Finalized.Latest.{IsOrder}
use essential_node.Db.Listing.Range.{All, All-of_Has, All-insert_sorted}
use essential_node.Db.Select.{All-imp}
use essential_node.Prelude.{
  ◌≡◌, refl, sym, ap, ◌∙◌, inl, inr, Bool, true, false, List, [], ◌∷◌, Bool-cases,
}

bool_set : IsSet Bool
bool_set = hlevel

module _ {A : Type 0} (before : A → A → Bool) where
  -- no row comes before one that stands further left
  abbrev InOrder : List A → Type 0
  InOrder [] = Unit {0}
  InOrder (x ∷ xs) = All (λ y. before y x ≡ false) xs × InOrder xs

  -- each row comes before those further right
  abbrev pub Ascending : List A → Type 0
  Ascending [] = Unit {0}
  Ascending (x ∷ xs) = All (λ y. before x y ≡ true) xs × Ascending xs

  module _ (order : IsOrder before) where
    insert_sorted-InOrder : (x : A) (xs : List A) → InOrder xs → InOrder (insert_sorted before x xs)
    insert_sorted-InOrder x [] h = (tt, tt)
    insert_sorted-InOrder x (y ∷ ys) h = elim (Bool-cases (before y x)) [
      | inl hit ↦ rw hit (
        All-insert_sorted (λ z. before z y ≡ false) before x ys (order.asymmetric y x hit) h.0,
        insert_sorted-InOrder x ys h.1,
      )
      | inr miss ↦ rw miss (
        (
          miss,
          All-imp (λ z. before z y ≡ false) (λ z. before z x ≡ false) ys
              (λ z k. order.tied z y x k miss) h.0,
        ),
        h,
      )
    ]

    sort-InOrder : (xs : List A) → InOrder (sort before xs)
    sort-InOrder [] = tt
    sort-InOrder (x ∷ xs) = insert_sorted-InOrder x (sort before xs) (sort-InOrder xs)

    module _ (is_set : IsSet A) where
      All-Mem :
          (f : A → Bool) (b : Bool) (xs : List A) (x : A)
          → All (λ y. f y ≡ b) xs
          → Mem x xs
          → f x ≡ b
      All-Mem f b [] x h there = absurd (not-mem-nil there)
      All-Mem f b (y ∷ ys) x h there =
          Or.elim (bool_set (f x) b) (mem-cons.0 there) (λ (same : x ≡ y). ap f same ∙ h.0)
            (λ (more : Mem x ys). All-Mem f b ys x h.1 more)

      same_head :
          (x y : A) (xs ys : List A)
          → InOrder (x ∷ xs)
          → Ascending (y ∷ ys)
          → Perm (x ∷ xs) (y ∷ ys)
          → x ≡ y
      same_head x y xs ys sorted ascends p =
          Or.elim (is_set x y) (mem-cons.0 ((Perm.mem_iff p).0 mem-cons_self))
            (λ (same : x ≡ y). same)
            (λ (later : Mem x ys).
              Or.elim (is_set x y) (mem-cons.0 ((Perm.mem_iff p).1 mem-cons_self))
                (λ (same : y ≡ x). sym same)
                (λ (more : Mem y xs).
                  let late = All-Mem (λ z. before z x) false xs y sorted.0 more in
                  let early = All-Mem (before y) true ys x ascends.0 later in absurd cc))

      InOrder-Ascending : (xs ys : List A) → InOrder xs → Ascending ys → Perm xs ys → xs ≡ ys
      InOrder-Ascending [] ys sorted ascends p = Perm.nil-eq p
      InOrder-Ascending (x ∷ xs) [] sorted ascends p = Perm.eq-nil p
      InOrder-Ascending (x ∷ xs) (y ∷ ys) sorted ascends p =
          let same = same_head x y xs ys sorted ascends p in
          let rest = Perm.cons_inv (Perm.trans p (Perm.symm (Perm.cons' same Perm.rfl))) in
          rw (same, InOrder-Ascending xs ys sorted.1 ascends.1 rest) refl

      -- the sorted rows, whatever their order was
      pub sort-Ascending :
          (xs rows : List A) → Ascending rows → Perm xs rows → sort before xs ≡ rows
      sort-Ascending xs rows ascends p =
          InOrder-Ascending (sort before xs) rows (sort-InOrder xs) ascends
            (Perm.trans (Perm-sort before xs) p)

-- a permutation of one row is that row
pub Perm-singleton : {A : Type 0} → IsSet A → (xs : List A) (x : A) → Perm xs (x ∷ []) → xs ≡ x ∷ []
Perm-singleton {A} is_set xs x p =
    let none_before : A → A → Bool = λ y z. false in
    let order : IsOrder none_before = record {
      irreflexive = λ y. refl;
      asymmetric = λ y z h. refl;
      tied = λ y z w h k. refl;
    } in
    InOrder-Ascending none_before order is_set xs (x ∷ []) (unordered xs) (tt, tt) p
  where
    unordered : (ys : List A) → InOrder (λ (y z : A). false) ys
    unordered [] = tt
    unordered (y ∷ ys) = (All-of_Has (λ z. false ≡ false) ys (λ z there. refl), unordered ys)

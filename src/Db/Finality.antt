-- ===== src/Db/Finality.antt =====
-- The `finalized_block` table after `finalize_block`.
use essential_node.Types.{ContentAddress}
use essential_node.Errors.{RusqliteError, sqlite_failure, constraint_violation}
use essential_node.Db.{BlockRow, FinalizedRow, Database}
use essential_node.Db.Statements.{find_block, insert_finalized}
use essential_node.Db.Insert.{finalize_block}
use essential_node.Prelude.{
  ◌≡◌, refl, inl, inr, Bool, false, ◌||◌, some, List, [], ◌∷◌, ◌++◌, arith, ◌==◌, if◌then◌else◌,
  Bool-cases, exists, eq_ℤ, ok, err, sym, ap, subst, ◌∙◌, none, Option-cases, Result, ok-eq-ok,
}

-- two rows for one number, or for one block
abbrev pub clash : FinalizedRow → FinalizedRow → Bool
clash f r = eq_ℤ f.block_number r.block_number || (f.block_id == r.block_id)

-- one block for each number, and one number for each block
abbrev pub OnePerNumber : List FinalizedRow → Type 0
OnePerNumber [] = Unit {0}
OnePerNumber (r ∷ rs) = (exists (λ f. clash f r) rs ≡ false) × OnePerNumber rs

exists-snoc {ℓ} :
    {A : Type ℓ} (p : A → Bool) (xs : List A) (y : A)
    → exists p xs ≡ false
    → p y ≡ false
    → exists p (xs ++ y ∷ []) ≡ false
exists-snoc p [] y h e = ground arith
exists-snoc p (x ∷ xs) y h e = elim (Bool-cases (p x)) [
  | inl hit ↦ absurd (ground arith)
  | inr miss ↦ rw miss (exists-snoc p xs y (ground arith) e)
]

clash_sym : (f r : FinalizedRow) → clash f r ≡ false → clash r f ≡ false
clash_sym f r h = ground arith

OnePerNumber-snoc :
    (rs : List FinalizedRow) (r : FinalizedRow)
    → OnePerNumber rs
    → exists (λ f. clash f r) rs ≡ false
    → OnePerNumber (rs ++ r ∷ [])
OnePerNumber-snoc [] r one free = (refl, tt)
OnePerNumber-snoc (x ∷ rs) r one free = elim (Bool-cases (clash x r)) [
  | inl hit ↦ absurd (ground arith)
  | inr miss ↦ (
    exists-snoc (λ f. clash f x) rs r one.0 (clash_sym x r miss),
    OnePerNumber-snoc rs r one.1 (ground arith),
  )
]

-- what `finalize_block` does with the row of a block
pub finalize_found :
    (a : ContentAddress) (db : Database) (b : BlockRow)
    → find_block db a ≡ some b
    → let row : FinalizedRow = record { block_number = b.number; block_id = b.id } in
      finalize_block a db ≡ (
        if exists (λ f. clash f row) db.finalized_block
        then err (sqlite_failure constraint_violation)
        else ok (record db { finalized_block = db.finalized_block ++ row ∷ [] }))
unfolding finalize_block insert_finalized
finalize_found a db b there = rw (there, insert_finalized)

finalize_unknown :
    (a : ContentAddress) (db : Database) → find_block db a ≡ none → finalize_block a db ≡ ok db
unfolding finalize_block insert_finalized
finalize_unknown a db missing = rw (missing, insert_finalized)

-- Where the finalized blocks have one block for each number and one number for each block, a
-- finalization that succeeds keeps it so and changes no row of `block`.
pub finalize_block-OnePerNumber :
    (a : ContentAddress) (db : Database) {db' : Database}
    → OnePerNumber db.finalized_block
    → finalize_block a db ≡ ok db'
    → OnePerNumber db'.finalized_block × (db'.block ≡ db.block)
finalize_block-OnePerNumber a db {db'} one e = elim (Option-cases (find_block db a)) [
  | inl missing ↦
      let same : db ≡ db' = ok-eq-ok (sym (finalize_unknown a db missing) ∙ e) in
      (subst (λ d. OnePerNumber d.finalized_block) same one, ap (λ d. d.block) (sym same))
  | inr (b, there) ↦ finalized b (sym (finalize_found a db b there) ∙ e)
]
  where
    finalized :
        (b : BlockRow)
        → (let row : FinalizedRow = record { block_number = b.number; block_id = b.id } in
            let kept : Result RusqliteError Database =
              ok (record db { finalized_block = db.finalized_block ++ row ∷ [] }) in
            (if exists (λ f. clash f row) db.finalized_block
              then err (sqlite_failure constraint_violation)
              else kept)
            ≡ ok db')
        → OnePerNumber db'.finalized_block × (db'.block ≡ db.block)
    finalized b e' =
        let row : FinalizedRow = record { block_number = b.number; block_id = b.id } in
        elim (Bool-cases (exists (λ f. clash f row) db.finalized_block)) [
          | inl hit ↦ absurd (ground (arith, e', hit))
          | inr free ↦
              let same : record db { finalized_block = db.finalized_block ++ row ∷ [] } ≡ db' =
                ground (arith, e', free) in
              (
                subst (λ d. OnePerNumber d.finalized_block) same
                    (OnePerNumber-snoc db.finalized_block row one free),
                ap (λ d. d.block) (sym same),
              )
        ]

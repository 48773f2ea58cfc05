-- ===== src/Validation/Next.antt =====
-- Which block the validation stream of crates/node/src/validation.rs takes next.
use essential_node.Types.{ContentAddress, Block}
use essential_node.Convert.{Convert}
use essential_node.Hashing.{Hashing, Predicates}
use essential_node.Db.{BlockRow, Database, Engine}
use essential_node.Db.Has.{Has, IsScan, Has-select, find-Has, find-of_Has, exists-Has, map-Has}
use essential_node.Db.Statements.{find_block}
use essential_node.Db.Query.{
  block_set_rows, fetch_sets, get_block_header, get_validation_progress, get_next_block_addresses,
  get_block,
}
use essential_node.Db.Listing.{row_header}
use essential_node.Db.Pool.{inner, ConnectionPool, acquire_then, acquire_pool}
use essential_node.Validate.Inner.{Checker}
use essential_node.Validation.Errors.{InternalError, critical, fork, get_next_block_failed}
use essential_node.Validation.Step.{
  Failing, validate_next_block, block_to_validate, get_last_progress, get_next_block, next_of,
}
use essential_node.Prelude.{
  ◌≡◌, refl, sym, ap, ◌∙◌, inl, inr, Bool, false, Option, none, some, List, [], ◌∷◌, ◌==◌, ==_iff,
  eq_ℤ, eq_ℤ_iff, inc, Result, ok, err, Result-cases, bytes_eq, bytes_eq_iff, some-eq-some,
  ok-eq-ok, &&-eq-true,
}

-- A row stands for one block: ids and addresses are unique.
pub record UniqueRows (rows : List BlockRow) : Type 0 where
  pub by_id : (r s : BlockRow) → Has r rows → Has s rows → r.id ≡ s.id → r ≡ s
  pub by_address :
      (r s : BlockRow) → Has r rows → Has s rows → r.block_address ≡ s.block_address → r ≡ s

one_of_two :
    {A : Type 0} (f : BlockRow → A) (x y r s : BlockRow)
    → (f x ≡ f y → ⊥)
    → Has r (x ∷ y ∷ [])
    → Has s (x ∷ y ∷ [])
    → f r ≡ f s
    → r ≡ s
one_of_two f x y r s apart (inl a) (inl b) e = a ∙ sym b
one_of_two f x y r s apart (inl a) (inr (inl b)) e = absurd (apart (sym (ap f a) ∙ e ∙ ap f b))
one_of_two f x y r s apart (inr (inl a)) (inl b) e = absurd (apart (sym (ap f b) ∙ sym e ∙ ap f a))
one_of_two f x y r s apart (inr (inl a)) (inr (inl b)) e = a ∙ sym b
one_of_two f x y r s apart (inl a) (inr (inr b)) e = absurd b
one_of_two f x y r s apart (inr (inl a)) (inr (inr b)) e = absurd b
one_of_two f x y r s apart (inr (inr a)) there e = absurd a

pub pair-UniqueRows :
    (x y : BlockRow)
    → (x.id ≡ y.id → ⊥)
    → (x.block_address ≡ y.block_address → ⊥)
    → UniqueRows (x ∷ y ∷ [])
pair-UniqueRows x y ids addresses = record {
  by_id = λ r s hr hs e. one_of_two (λ (b : BlockRow). b.id) x y r s ids hr hs e;
  by_address =
      λ r s hr hs e. one_of_two (λ (b : BlockRow). b.block_address) x y r s addresses hr hs e;
}

-- the progress is the block of this row
pub record ProgressAt (row : BlockRow) (db : Database) : Type 0 where
  pub there : Has row db.block
  pub progress : db.progress ≡ some row.id

pub find_block-row :
    (db : Database) (address : ContentAddress) {row : BlockRow}
    → find_block db address ≡ some row
    → Has row db.block × (row.block_address ≡ address)
unfolding find_block
find_block-row db address {row} found =
    let (there, same) = find-Has (λ b. bytes_eq b.block_address address) db.block found in
    (there, (bytes_eq_iff row.block_address address).0 same)

pub find_block-of_row :
    (db : Database) (row : BlockRow)
    → UniqueRows db.block
    → Has row db.block
    → find_block db row.block_address ≡ some row
unfolding find_block
find_block-of_row db row unique there =
    let (r, found) =
      find-of_Has (λ (b : BlockRow). bytes_eq b.block_address row.block_address) db.block row there
        ((bytes_eq_iff row.block_address row.block_address).1 refl) in
    let (there_r, same) =
      find-Has (λ (b : BlockRow). bytes_eq b.block_address row.block_address) db.block found in
    found
    ∙ ap some (
        unique.by_address r row there_r there
          ((bytes_eq_iff r.block_address row.block_address).0 same))

pub ProgressAt-address :
    (row : BlockRow) (db : Database)
    → UniqueRows db.block
    → ProgressAt row db
    → get_validation_progress db ≡ some row.block_address
unfolding get_validation_progress
ProgressAt-address row db unique at =
    let (r, found) =
      find-of_Has (λ b. b.id == row.id) db.block row at.there ((==_iff row.id row.id).1 refl) in
    let (there, same) = find-Has (λ b. b.id == row.id) db.block found in
    let one = unique.by_id r row there at.there ((==_iff r.id row.id).0 same) in
    rw (get_validation_progress, at.progress)
      (rw found (ap (λ (b : BlockRow). some b.block_address) one))

module _ (e : Engine) (law : IsScan e) where
  -- a block that comes next has the number that follows that of the progress
  pub next-number :
      (row : BlockRow) (db : Database) (a : ContentAddress)
      → UniqueRows db.block
      → Has row db.block
      → Has a (get_next_block_addresses e row.block_address db)
      → (r : BlockRow) × Has r db.block × (r.block_address ≡ a) × (r.number ≡ inc row.number)
  unfolding get_next_block_addresses
  next-number row db a unique at h =
      let (r, scanned, same) = map-Has (λ (b : BlockRow). b.block_address) _ a h in
      let (there, follows) = (Has-select _ db.block r).0 ((law.same_rows BlockRow _ r).0 scanned) in
      let (q, there_q, test) = exists-Has _ db.block follows in
      let (here, up) =
        &&-eq-true (bytes_eq q.block_address row.block_address) (eq_ℤ r.number (inc q.number))
          test in
      let one = unique.by_address q row there_q at ((bytes_eq_iff _ _).0 here) in
      (r, there, sym same, (eq_ℤ_iff _ _).0 up ∙ ap (λ (b : BlockRow). inc b.number) one)

module _ (c : Convert) (h : Hashing) (e : Engine) (p : Predicates) (k : Checker p) (fails : Failing)
    (contract_registry program_registry : ContentAddress) where
  abbrev pub next_block : ConnectionPool → Result InternalError (Option Block)
  next_block = block_to_validate c h e p k fails contract_registry program_registry

  abbrev pub round : ConnectionPool → Result InternalError Bool × ConnectionPool
  round = validate_next_block c h e p k fails contract_registry program_registry

  -- the block to validate is the only one that comes next, as it is read
  pub next_block-some :
      (pool : ConnectionPool) (progress : ContentAddress) {block : Block}
      → pool.closed ≡ false
      → get_validation_progress pool.database ≡ some progress
      → next_block pool ≡ ok (some block)
      → (a : ContentAddress) × (get_next_block_addresses e progress pool.database ≡ a ∷ [])
        × (get_block e c a pool.database ≡ ok (some block))
  unfolding block_to_validate get_last_progress get_next_block next_of acquire_then acquire_pool
  next_block-some pool progress {block} o g found =
      by_list (get_next_block_addresses e progress pool.database) refl
    where
      by_list :
          (xs : List ContentAddress)
          → get_next_block_addresses e progress pool.database ≡ xs
          → (a : ContentAddress) × (get_next_block_addresses e progress pool.database ≡ a ∷ [])
            × (get_block e c a pool.database ≡ ok (some block))
      by_list [] n = let nothing : next_block pool ≡ ok none = rw o (rw g (rw n)) in absurd cc
      by_list (a ∷ []) n = elim (Result-cases (get_block e c a pool.database)) [
        | inl (b, read) ↦
            let gives : next_block pool ≡ ok b = rw o (rw g (rw n (rw read))) in
            (a, n, read ∙ ap ok (ok-eq-ok (sym gives ∙ found)))
        | inr (f, read) ↦
            let fails : next_block pool ≡ err (critical (get_next_block_failed (inner f))) =
              rw o (rw g (rw n (rw read))) in
            absurd cc
      ]
      by_list (a ∷ b ∷ more) n =
          let forks : next_block pool ≡ err (critical fork) = rw o (rw g (rw n)) in absurd cc

  pub get_block-number :
      (db : Database) (a : ContentAddress) {row : BlockRow} {block : Block}
      → find_block db a ≡ some row
      → get_block e c a db ≡ ok (some block)
      → block.header.number ≡ row.number
  unfolding get_block get_block_header
  get_block-number db a {row} {block} found read =
      elim (Result-cases (fetch_sets e c db (block_set_rows e db row))) [
        | inl (sets, fetched) ↦
            let gives : get_block e c a db
                ≡ ok (some (record { header = row_header row; solution_sets = sets })) =
              rw (found, get_block, get_block_header) (rw found (rw fetched refl)) in
            sym (ap (λ (b : Block). b.header.number) (some-eq-some (ok-eq-ok (sym gives ∙ read))))
        | inr (f, failed) ↦
            let fails : get_block e c a db ≡ err f =
              rw (found, get_block, get_block_header) (rw found (rw failed refl)) in
            absurd cc
      ]

-- ===== src/Db/Blocks.antt =====
-- What `insert_block` leaves of the tables `block` and `finalized_block`.
use essential_node.Types.{Block, ContentAddress, Mutation, Value, Solution, SolutionSet}
use essential_node.Convert.{Convert}
use essential_node.Hashing.{Hashing}
use essential_node.Db.{Database}
use essential_node.Db.Statements.{
  insert_block_row, insert_solution_set, insert_block_solution_set, insert_solution,
  insert_mutation, insert_pred_data,
}
use essential_node.Db.Insert.{
  to_sql, insert_block, insert_mutations, insert_pred_datas, insert_whole_solution,
  insert_solutions, insert_whole_set, insert_sets, zero_address,
}
use essential_node.Prelude.{
  ℕ, suc, ◌≡◌, refl, ◌∙◌, List, [], ◌∷◌, arith, ℤ, ok, >>=-eq-ok, sym, ap, ok-eq-ok, set,
}

-- the tables `block` and `finalized_block` are the same
pub record SameChain (db' db : Database) : Type 0 where
  pub same_block : db'.block ≡ db.block
  pub same_finalized : db'.finalized_block ≡ db.finalized_block

SameChain-refl : {x : Database} → SameChain x x
SameChain-refl = record { same_block = refl; same_finalized = refl }

SameChain-trans : {x y z : Database} → SameChain x y → SameChain y z → SameChain x z
SameChain-trans h k = record {
  same_block = h.same_block ∙ k.same_block;
  same_finalized = h.same_finalized ∙ k.same_finalized;
}

module _ (c : Convert) where
  insert_mutations-SameChain :
      (ca : ContentAddress) (six ix : ℕ) (ms : List Mutation) (db : Database)
      → SameChain (insert_mutations c ca six ix ms db) db
  unfolding insert_mutations insert_mutation
  insert_mutations-SameChain ca six ix [] db = SameChain-refl
  insert_mutations-SameChain ca six ix (m ∷ ms) db =
      SameChain-trans (insert_mutations-SameChain ca six (suc ix) ms _) (ground arith)

  insert_pred_datas-SameChain :
      (ca : ContentAddress) (six ix : ℕ) (vs : List Value) (db : Database)
      → SameChain (insert_pred_datas c ca six ix vs db) db
  unfolding insert_pred_datas insert_pred_data
  insert_pred_datas-SameChain ca six ix [] db = SameChain-refl
  insert_pred_datas-SameChain ca six ix (v ∷ vs) db =
      SameChain-trans (insert_pred_datas-SameChain ca six (suc ix) vs _) (ground arith)

  insert_solution-SameChain :
      (ca : ContentAddress) (ix : ℕ) (contract predicate : ContentAddress) (db : Database)
      → SameChain (insert_solution ca ix contract predicate db) db
  unfolding insert_solution
  insert_solution-SameChain ca ix contract predicate db = ground arith

  insert_solutions-SameChain :
      (ca : ContentAddress) (ix : ℕ) (ss : List Solution) (db : Database)
      → SameChain (insert_solutions c ca ix ss db) db
  unfolding insert_solutions insert_whole_solution
  insert_solutions-SameChain ca ix [] db = SameChain-refl
  insert_solutions-SameChain ca ix (s ∷ ss) db =
      SameChain-trans (insert_solutions-SameChain ca (suc ix) ss _) (
        SameChain-trans (insert_pred_datas-SameChain ca ix 0 s.predicate_data _) (
          SameChain-trans (insert_mutations-SameChain ca ix 0 s.state_mutations _) (
            insert_solution-SameChain ca ix s.predicate_to_solve.contract
              s.predicate_to_solve.predicate db)))

  insert_set_rows-SameChain :
      (address ca : ContentAddress) (ix : ℕ) (db : Database)
      → SameChain (insert_block_solution_set address ca ix (insert_solution_set ca db)) db
  unfolding insert_block_solution_set insert_solution_set
  insert_set_rows-SameChain address ca ix db = ground arith

  pub insert_sets-SameChain :
      (h : Hashing) (address : ContentAddress) (ix : ℕ) (sets : List SolutionSet) (db : Database)
      → SameChain (insert_sets c h address ix sets db) db
  unfolding insert_sets insert_whole_set
  insert_sets-SameChain h address ix [] db = SameChain-refl
  insert_sets-SameChain h address ix (set ∷ sets) db =
      SameChain-trans (insert_sets-SameChain h address (suc ix) sets _) (
        SameChain-trans (insert_solutions-SameChain (h.solution_set_addr set) 0 set.solutions _)
          (insert_set_rows-SameChain address (h.solution_set_addr set) ix db))

pub to_sql-eq-ok : (n : ℕ) {m : ℕ} → to_sql n ≡ ok m → m ≡ n
unfolding to_sql
to_sql-eq-ok n e = ground arith

module _ (c : Convert) (h : Hashing) where
  finalized-insert_block_row :
      (a parent : ContentAddress) (n : ℤ) (s ns : ℕ) (db : Database)
      → (insert_block_row a parent n s ns db).finalized_block ≡ db.finalized_block
  unfolding insert_block_row
  finalized-insert_block_row a parent n s ns db = ground arith

  -- an insertion finalizes nothing
  pub finalized-insert_block :
      (b : Block) (db : Database) {a : ContentAddress} {db' : Database}
      → insert_block c h b db ≡ ok (a, db')
      → db'.finalized_block ≡ db.finalized_block
  unfolding insert_block
  finalized-insert_block b db e =
      let (secs, bound, rest) = >>=-eq-ok (to_sql b.header.timestamp.secs) _ e in
      ap (λ out. out.1.finalized_block) (sym (ok-eq-ok rest))
      ∙ (insert_sets-SameChain c h _ 0 b.solution_sets _).same_finalized
      ∙ finalized-insert_block_row _ zero_address b.header.number secs b.header.timestamp.nanos db

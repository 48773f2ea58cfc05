-- ===== src/Db/Stored/New.antt =====
-- A solution set that `insert_block` (crates/node-db/src/lib.rs) adds to a database that has it
-- not.
use essential_node.Types.{ContentAddress, Mutation, Value, Solution, SolutionSet}
use essential_node.Convert.{Convert}
use essential_node.Db.{
  BlockRow, BlockSetRow, SolutionSetRow, SolutionRow, MutationRow, PredDataRow, Database,
}
use essential_node.Db.Listing.Range.{All, All-append}
use essential_node.Db.Select.{All-imp, find-none, find-new, next_id-snoc}
use essential_node.Db.Statements.{
  next_id, find_block, find_set, find_solution, insert_solution_set, insert_block_solution_set,
  same_block_set,
}
use essential_node.Db.Insert.{insert_whole_set, insert_solutions}
use essential_node.Db.Stored.{
  next_set, next_solution, with_rows, solution_row, rows_of_solutions, rows_of_mutations,
  rows_of_data, all_mutations, all_data,
}
use essential_node.Db.Stored.Insert.{insert_solutions-rows}
use essential_node.Prelude.{
  ℕ, ◌<◌, ◌≡◌, ap, ◌∙◌, false, ◌&&◌, none, some, [], ◌∷◌, ◌++◌, arith, ◌==◌, set, exists, bytes_eq,
  bytes_eq_refl, bytes_eq, suc, ◌+◌, ◌≤◌, refl, sym, true, List, map, append-nil, append_assoc,
  length,
}

-- rows name sets and solutions that are there
pub record Refers (db : Database) : Type 0 where
  pub of_solutions : All (λ (r : SolutionRow). r.solution_set_id < next_set db) db.solution
  pub of_mutations : All (λ (m : MutationRow). m.solution_id < next_solution db) db.mutation
  pub of_data : All (λ (d : PredDataRow). d.solution_id < next_solution db) db.pred_data

abbrev pub set_row : Database → ContentAddress → SolutionSetRow
set_row db ca = record { id = next_set db; content_addr = ca }

abbrev pub place_row : Database → BlockRow → ℕ → BlockSetRow
place_row db b ix = record {
  block_id = b.id;
  solution_set_id = next_set db;
  solution_set_index = ix;
}

-- the database with the row of the set and its place in the block
abbrev pub placed : BlockRow → ContentAddress → ℕ → Database → Database
placed b ca ix db = record db {
  solution_set = db.solution_set ++ set_row db ca ∷ [];
  block_solution_set = db.block_solution_set ++ place_row db b ix ∷ [];
}

module _ (c : Convert) where
  -- what `insert_whole_set` leaves
  abbrev pub added : BlockRow → ContentAddress → ℕ → SolutionSet → Database → Database
  added b ca ix set db =
      with_rows (placed b ca ix db)
        (rows_of_solutions (next_set db) 0 (next_solution db) set.solutions)
        (all_mutations c (next_solution db) set.solutions)
        (all_data c (next_solution db) set.solutions)

  pub find_set-placed :
      (b : BlockRow) (ca : ContentAddress) (ix : ℕ) (db : Database)
      → find_set db ca ≡ none
      → find_set (placed b ca ix db) ca ≡ some (set_row db ca)
  unfolding find_set
  find_set-placed b ca ix db new =
      find-new (λ (s : SolutionSetRow). bytes_eq s.content_addr ca) db.solution_set (set_row db ca)
        new (bytes_eq_refl ca)

  insert_solution_set-new :
      (ca : ContentAddress) (db : Database)
      → find_set db ca ≡ none
      → insert_solution_set ca db
        ≡ record db { solution_set = db.solution_set ++ set_row db ca ∷ [] }
  unfolding insert_solution_set
  insert_solution_set-new ca db new = rw (new, insert_solution_set) refl

  insert_block_solution_set-row :
      (address ca : ContentAddress) (ix : ℕ) (db : Database) {b : BlockRow} {s : SolutionSetRow}
      → find_block db address ≡ some b
      → find_set db ca ≡ some s
      → exists
          (same_block_set
            (record { block_id = b.id; solution_set_id = s.id; solution_set_index = ix }))
          db.block_solution_set
        ≡ false
      → insert_block_solution_set address ca ix db ≡ record db {
        block_solution_set =
            db.block_solution_set
            ++ record { block_id = b.id; solution_set_id = s.id; solution_set_index = ix } ∷ [];
      }
  unfolding insert_block_solution_set
  insert_block_solution_set-row address ca ix db there found free =
      rw (there, insert_block_solution_set) (rw found (rw free refl))

  insert_rows-placed :
      (address ca : ContentAddress) (ix : ℕ) (db : Database) {b : BlockRow}
      → find_block db address ≡ some b
      → find_set db ca ≡ none
      → exists (same_block_set (place_row db b ix)) db.block_solution_set ≡ false
      → insert_block_solution_set address ca ix (insert_solution_set ca db) ≡ placed b ca ix db
  unfolding find_block find_set
  insert_rows-placed address ca ix db {b} there new free =
      let one = record db { solution_set = db.solution_set ++ set_row db ca ∷ [] } in
      ap (insert_block_solution_set address ca ix) (insert_solution_set-new ca db new)
      ∙ insert_block_solution_set-row address ca ix one there (find_set-placed b ca ix db new) free

  pub no_solutions : (db : Database) → Refers db → (k : ℕ) → find_solution db (next_set db) k ≡ none
  unfolding find_solution
  no_solutions db refers k =
      find-none (λ (r : SolutionRow). (r.solution_set_id == next_set db) && (r.solution_index == k))
        db.solution
        (All-imp _ _ db.solution
          (λ (r : SolutionRow) (h : r.solution_set_id < next_set db). ground (arith, h))
          refers.of_solutions)

  pub insert_whole_set-added :
      (address ca : ContentAddress) (ix : ℕ) (set : SolutionSet) (db : Database) {b : BlockRow}
      → find_block db address ≡ some b
      → find_set db ca ≡ none
      → exists (same_block_set (place_row db b ix)) db.block_solution_set ≡ false
      → Refers db
      → insert_whole_set c address ca ix set db ≡ added b ca ix set db
  unfolding insert_whole_set find_solution
  insert_whole_set-added address ca ix set db {b} there new free refers =
      ap (insert_solutions c ca 0 set.solutions)
        (insert_rows-placed address ca ix db there new free)
      ∙ insert_solutions-rows c ca 0 set.solutions (placed b ca ix db)
          (find_set-placed b ca ix db new) (λ k h. no_solutions db refers k)

pub rows_of_solutions-In :
    (set_id ix id : ℕ) (ss : List Solution)
    → All
        (λ (r : SolutionRow). (r.solution_set_id == set_id) ≡ true)
        (rows_of_solutions set_id ix id ss)
rows_of_solutions-In set_id ix id [] = tt
rows_of_solutions-In set_id ix id (s ∷ ss) =
    (ground arith, rows_of_solutions-In set_id (suc ix) (suc id) ss)

pub next_id-rows :
    (set_id ix id : ℕ) (ss : List Solution) (rows : List SolutionRow)
    → next_id (map (λ (r : SolutionRow). r.id) rows) ≡ id
    → next_id (map (λ (r : SolutionRow). r.id) (rows ++ rows_of_solutions set_id ix id ss))
      ≡ id + length ss
next_id-rows set_id ix id [] rows e = rw (append-nil rows) (omega (arith, e))
next_id-rows set_id ix id (s ∷ ss) rows e =
    let row = solution_row set_id ix id s in
    let counted : next_id (map (λ (r : SolutionRow). r.id) (rows ++ row ∷ [])) ≡ suc id =
      next_id-snoc (λ (r : SolutionRow). r.id) rows row (omega (arith, e)) in
    let rest = next_id-rows set_id (suc ix) (suc id) ss (rows ++ row ∷ []) counted in
    ap (λ l. next_id (map (λ (r : SolutionRow). r.id) l))
      (sym (append_assoc rows (row ∷ []) (rows_of_solutions set_id (suc ix) (suc id) ss)))
    ∙ rest
    ∙ omega arith

module _ (c : Convert) where
  pub rows_of_mutations-Of :
      (id ix : ℕ) (ms : List Mutation)
      → All (λ (m : MutationRow). m.solution_id ≡ id) (rows_of_mutations c id ix ms)
  rows_of_mutations-Of id ix [] = tt
  rows_of_mutations-Of id ix (m ∷ ms) = (refl, rows_of_mutations-Of id (suc ix) ms)

  pub rows_of_data-Of :
      (id ix : ℕ) (vs : List Value)
      → All (λ (d : PredDataRow). d.solution_id ≡ id) (rows_of_data c id ix vs)
  rows_of_data-Of id ix [] = tt
  rows_of_data-Of id ix (v ∷ vs) = (refl, rows_of_data-Of id (suc ix) vs)

  abbrev pub Within : ℕ → ℕ → ℕ → Type 0
  Within low high n = (low ≤ n) × (n < high)

  pub all_mutations-Within :
      (id : ℕ) (ss : List Solution)
      → All (λ (m : MutationRow). Within id (id + length ss) m.solution_id) (all_mutations c id ss)
  all_mutations-Within id [] = tt
  all_mutations-Within id (s ∷ ss) =
      All-append _ (rows_of_mutations c id 0 s.state_mutations) (all_mutations c (suc id) ss)
        (All-imp _ _ _ (λ (m : MutationRow) (h : m.solution_id ≡ id). (omega arith, omega arith))
          (rows_of_mutations-Of id 0 s.state_mutations))
        (All-imp _ _ _
          (λ (m : MutationRow) (h : Within (suc id) (suc id + length ss) m.solution_id).
            (omega arith, omega arith))
          (all_mutations-Within (suc id) ss))

  pub all_data-Within :
      (id : ℕ) (ss : List Solution)
      → All (λ (d : PredDataRow). Within id (id + length ss) d.solution_id) (all_data c id ss)
  all_data-Within id [] = tt
  all_data-Within id (s ∷ ss) =
      All-append _ (rows_of_data c id 0 s.predicate_data) (all_data c (suc id) ss)
        (All-imp _ _ _ (λ (m : PredDataRow) (h : m.solution_id ≡ id). (omega arith, omega arith))
          (rows_of_data-Of id 0 s.predicate_data))
        (All-imp _ _ _
          (λ (m : PredDataRow) (h : Within (suc id) (suc id + length ss) m.solution_id).
            (omega arith, omega arith))
          (all_data-Within (suc id) ss))

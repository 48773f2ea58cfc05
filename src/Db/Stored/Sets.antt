-- ===== src/Db/Stored/Sets.antt =====
-- The loop of `insert_block` (crates/node-db/src/lib.rs) over solution sets that are new.
use essential_node.Types.{ContentAddress, SolutionSet}
use essential_node.Convert.{Convert}
use essential_node.Hashing.{Hashing}
use essential_node.Db.{BlockRow, BlockSetRow, SolutionSetRow, Database}
use essential_node.Db.Listing.Range.{All, All-append}
use essential_node.Db.Select.{All-imp, exists-none, find-other}
use essential_node.Db.Statements.{find_block, find_set, same_block_set}
use essential_node.Db.Insert.{insert_sets}
use essential_node.Db.Stored.{next_set}
use essential_node.Db.Stored.Read.{Holds}
use essential_node.Db.Stored.Frame.{Grows, Grows-refl, Grows-trans, Holds-Grows}
use essential_node.Db.Stored.New.{Refers, set_row, place_row, added, insert_whole_set-added}
use essential_node.Db.Stored.Added.{next_set-added, added-Grows, added-Refers, added-Holds}
use essential_node.Prelude.{
  ℕ, suc, ◌≡◌, refl, sym, subst, ◌∙◌, ◌≢◌, inl, inr, false, ◌&&◌, none, some, List, [], ◌∷◌, ◌++◌,
  append-nil, append_assoc, arith, leb, ◌==◌, Bool-cases, set, bytes_eq, bytes_eq_iff, bytes_eq_iff,
  bytes_eq,
}

-- the places of sets in a block, with ids in turn
abbrev pub rows_of_sets : BlockRow → ℕ → ℕ → List SolutionSet → List BlockSetRow
rows_of_sets b set_id ix [] = []
rows_of_sets b set_id ix (set ∷ sets) =
    record { block_id = b.id; solution_set_id = set_id; solution_set_index = ix }
    ∷ rows_of_sets b (suc set_id) (suc ix) sets

module _ (c : Convert) (h : Hashing) where
  -- the sets are not in the database, and differ in their addresses
  abbrev pub AreNew : Database → List SolutionSet → Type 0
  AreNew db [] = Unit {0}
  AreNew db (set ∷ sets) =
      (find_set db (h.solution_set_addr set) ≡ none)
      × All (λ (t : SolutionSet). h.solution_set_addr set ≢ h.solution_set_addr t) sets
      × AreNew db sets

  -- the sets are there, under ids in turn
  abbrev pub HoldsAll : Database → ℕ → List SolutionSet → Type 0
  HoldsAll db set_id [] = Unit {0}
  HoldsAll db set_id (set ∷ sets) =
      Holds c db (h.solution_set_addr set) set_id set × HoldsAll db (suc set_id) sets

  -- no set of the block has this index or a later one
  abbrev pub IsFree : BlockRow → ℕ → Database → Type 0
  IsFree b ix db =
      All (λ (r : BlockSetRow). ((r.block_id == b.id) && leb ix r.solution_set_index) ≡ false)
        db.block_solution_set

  find_set-added :
      (b : BlockRow) (ca other : ContentAddress) (ix : ℕ) (set : SolutionSet) (db : Database)
      → find_set db other ≡ none
      → ca ≢ other
      → find_set (added c b ca ix set db) other ≡ none
  unfolding find_set
  find_set-added b ca other ix set db new differ =
      find-other (λ (s : SolutionSetRow). bytes_eq s.content_addr other) db.solution_set
        (set_row db ca) new
        (elim (Bool-cases (bytes_eq ca other)) [
          | inl same ↦ absurd (differ ((bytes_eq_iff ca other).0 same))
          | inr miss ↦ miss
        ])

  AreNew-added :
      (b : BlockRow) (ca : ContentAddress) (ix : ℕ) (set : SolutionSet) (db : Database)
      (sets : List SolutionSet)
      → All (λ (t : SolutionSet). ca ≢ h.solution_set_addr t) sets
      → AreNew db sets
      → AreNew (added c b ca ix set db) sets
  AreNew-added b ca ix set db [] differ new = tt
  AreNew-added b ca ix set db (t ∷ ts) differ new = (
    find_set-added b ca (h.solution_set_addr t) ix set db new.0 differ.0,
    new.1,
    AreNew-added b ca ix set db ts differ.1 new.2,
  )

  IsFree-added :
      (b : BlockRow) (ca : ContentAddress) (ix : ℕ) (set : SolutionSet) (db : Database)
      → IsFree b ix db
      → IsFree b (suc ix) (added c b ca ix set db)
  IsFree-added b ca ix set db free =
      All-append _ db.block_solution_set (place_row db b ix ∷ [])
        (All-imp _ _ db.block_solution_set
          (λ (r : BlockSetRow) (k : ((r.block_id == b.id) && leb ix r.solution_set_index) ≡ false).
            ground (arith, k))
          free)
        (ground arith, tt)

  -- what the loop leaves
  pub record Inserted (b : BlockRow) (ix : ℕ) (sets : List SolutionSet) (db db' : Database)
      : Type 0 where
    pub grows : Grows db db'
    pub refers : Refers db'
    pub holds : HoldsAll db' (next_set db) sets
    pub same_block : db'.block ≡ db.block
    pub places :
        db'.block_solution_set ≡ db.block_solution_set ++ rows_of_sets b (next_set db) ix sets

  pub insert_sets-Inserted :
      (address : ContentAddress) (ix : ℕ) (sets : List SolutionSet) (db : Database) {b : BlockRow}
      → find_block db address ≡ some b
      → Refers db
      → AreNew db sets
      → IsFree b ix db
      → Inserted b ix sets db (insert_sets c h address ix sets db)
  unfolding insert_sets find_block
  insert_sets-Inserted address ix [] db there refers new free = record {
    grows = Grows-refl db;
    refers = refers;
    holds = tt;
    same_block = refl;
    places = sym (append-nil db.block_solution_set);
  }
  insert_sets-Inserted address ix (set ∷ sets) db {b} there refers new free =
      let ca = h.solution_set_addr set in
      let one = added c b ca ix set db in
      let room = exists-none (same_block_set (place_row db b ix)) db.block_solution_set (
        All-imp _ _ db.block_solution_set
          (λ (r : BlockSetRow) (k : ((r.block_id == b.id) && leb ix r.solution_set_index) ≡ false).
            ground (arith, k))
          free) in
      let rest =
        insert_sets-Inserted address (suc ix) sets one there (added-Refers c b ca ix set db refers)
          (AreNew-added b ca ix set db sets new.1 new.2) (IsFree-added b ca ix set db free) in
      let db' = insert_sets c h address (suc ix) sets one in
      let made : Inserted b ix (set ∷ sets) db db' = record {
        grows = Grows-trans db one db' (added-Grows c b ca ix set db) rest.grows;
        refers = rest.refers;
        holds = (
          Holds-Grows c one db' rest.grows ca (next_set db) set
              (added-Holds c b ca ix set db refers new.0),
          subst (λ n. HoldsAll db' n sets) (next_set-added c b ca ix set db) rest.holds,
        );
        same_block = rest.same_block;
        places =
            rest.places
            ∙ rw (next_set-added c b ca ix set db) (
                append_assoc db.block_solution_set (place_row db b ix ∷ [])
                  (rows_of_sets b (suc (next_set db)) (suc ix) sets));
      } in
      subst (λ d. Inserted b ix (set ∷ sets) db (insert_sets c h address (suc ix) sets d))
        (sym (insert_whole_set-added c address ca ix set db there new.0 room refers)) made

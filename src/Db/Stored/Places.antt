-- ===== src/Db/Stored/Places.antt =====
-- The places of solution sets in a block, and the sets that `get_block` reads from them.
use essential_node.Types.{ContentAddress, SolutionSet}
use essential_node.Convert.{Convert, IsConvert}
use essential_node.Hashing.{Hashing}
use essential_node.Db.{BlockRow, BlockSetRow, SolutionSetRow, Database, Engine}
use essential_node.Db.Sort.{sort}
use essential_node.Db.Listing.Range.{All, All-append}
use essential_node.Db.Select.{All-imp, select-new}
use essential_node.Db.Distinct.{IsPermutation}
use essential_node.Db.Ascending.{Ascending, sort-Ascending}
use essential_node.Db.Finalized.Latest.{IsOrder}
use essential_node.Db.Stored.Alike.{AlikeSets}
use essential_node.Db.Statements.{next_id}
use essential_node.Db.Query.{fetch_sets, block_set_rows, set_rows, get_hash, get_solution_set}
use essential_node.Db.Stored.{next_set}
use essential_node.Db.Stored.Read.{AreSolutionWords, get_solution_set-Holds}
use essential_node.Db.Stored.Frame.{next_set-Grows}
use essential_node.Db.Stored.Sets.{rows_of_sets, HoldsAll, Inserted}
use essential_node.Prelude.{
  Bool, ℕ, suc, ◌<◌, ◌≡◌, refl, sym, ap, subst, ◌∙◌, ◌≢◌, true, Option, none, some, List, [], ◌∷◌,
  map, arith, ltb, ◌==◌, set, select, find, ok,
}

-- the id of the next block
abbrev pub next_block : Database → ℕ
next_block db = next_id (map (λ b. b.id) db.block)

-- the places of solution sets name blocks and sets that are there
abbrev pub RefersToBlocks : Database → Type 0
RefersToBlocks db =
    All (λ (r : BlockSetRow). (r.block_id < next_block db) × (r.solution_set_id < next_set db))
      db.block_solution_set

-- the words of a block are those of an i64
abbrev pub AreBlockWords : List SolutionSet → Type 0
AreBlockWords sets = All (λ (s : SolutionSet). All AreSolutionWords s.solutions) sets

later_places :
    (b : BlockRow) (set_id ix k : ℕ) (sets : List SolutionSet)
    → k < ix
    → All (λ (r : BlockSetRow). ltb k r.solution_set_index ≡ true) (rows_of_sets b set_id ix sets)
later_places b set_id ix k [] h = tt
later_places b set_id ix k (s ∷ ss) h =
    (ground (arith, h), later_places b (suc set_id) (suc ix) k ss (omega arith))

-- the order of get_block.sql
abbrev by_set_index : BlockSetRow → BlockSetRow → Bool
by_set_index r s = ltb r.solution_set_index s.solution_set_index

by_set_index-IsOrder : IsOrder by_set_index
by_set_index-IsOrder = record {
  irreflexive = λ x. ground arith;
  asymmetric = λ x y h. ground arith;
  tied = λ x y z h k. ground arith;
}

rows_of_sets-Ascending :
    (b : BlockRow) (set_id ix : ℕ) (sets : List SolutionSet)
    → Ascending by_set_index (rows_of_sets b set_id ix sets)
rows_of_sets-Ascending b set_id ix [] = tt
rows_of_sets-Ascending b set_id ix (s ∷ ss) = (
  later_places b (suc set_id) (suc ix) ix ss (omega arith),
  rows_of_sets-Ascending b (suc set_id) (suc ix) ss,
)

block_set_row_set : IsSet BlockSetRow
block_set_row_set = hlevel

pub rows_of_sets-Of :
    (b : BlockRow) (set_id ix : ℕ) (sets : List SolutionSet)
    → All (λ (r : BlockSetRow). (r.block_id == b.id) ≡ true) (rows_of_sets b set_id ix sets)
rows_of_sets-Of b set_id ix [] = tt
rows_of_sets-Of b set_id ix (s ∷ ss) = (ground arith, rows_of_sets-Of b (suc set_id) (suc ix) ss)

module _ (c : Convert) (laws : IsConvert c) (h : Hashing) (e : Engine) (law : IsPermutation e) where
  -- what the left join gives at one place
  abbrev address_at : Database → BlockSetRow → Option ContentAddress
  address_at db q = elim (find (λ s. s.id == q.solution_set_id) db.solution_set) [
    | none ↦ none
    | some s ↦ some s.content_addr
  ]

  address_at-found :
      (db : Database) (q : BlockSetRow) {s : SolutionSetRow}
      → find (λ s. s.id == q.solution_set_id) db.solution_set ≡ some s
      → address_at db q ≡ some s.content_addr
  address_at-found db q found = rw (found, address_at) refl

  -- the sets are read, each of them alike
  abbrev pub ReadsSets : Database → List (Option ContentAddress) → List SolutionSet → Type 0
  ReadsSets db rows sets =
      (back : List SolutionSet) × (fetch_sets e c db rows ≡ ok back) × AlikeSets back sets

  fetch_sets-HoldsAll :
      (b : BlockRow) (db : Database) (set_id ix : ℕ) (sets : List SolutionSet)
      → AreBlockWords sets
      → HoldsAll c h db set_id sets
      → ReadsSets db (map (address_at db) (rows_of_sets b set_id ix sets)) sets
  unfolding fetch_sets get_hash
  fetch_sets-HoldsAll b db set_id ix [] words holds = ([], refl, tt)
  fetch_sets-HoldsAll b db set_id ix (s ∷ ss) words holds =
      let ca = h.solution_set_addr s in
      let row : BlockSetRow = record {
        block_id = b.id;
        solution_set_id = set_id;
        solution_set_index = ix;
      } in
      let at : address_at db row ≡ some ca = address_at-found db row holds.0.by_id in
      let (back, read, alike) = fetch_sets-HoldsAll b db (suc set_id) (suc ix) ss words.1 holds.1 in
      (
        get_solution_set e c ca db ∷ back,
        ap
              (λ o.
                fetch_sets e c db
                  (o ∷ map (address_at db) (rows_of_sets b (suc set_id) (suc ix) ss)))
              at
            ∙ rw read refl,
        (get_solution_set-Holds c laws e law db ca set_id s words.0 holds.0, alike),
      )

  pub fetch_sets-Inserted :
      (b : BlockRow) (sets : List SolutionSet) (db db' : Database)
      → sets ≢ []
      → AreBlockWords sets
      → All (λ (r : BlockSetRow). r.block_id < b.id) db.block_solution_set
      → Inserted c h b 0 sets db db'
      → ReadsSets db' (block_set_rows e db' b) sets
  unfolding block_set_rows set_rows
  fetch_sets-Inserted b [] db db' some_sets words old made = absurd (some_sets refl)
  fetch_sets-Inserted b (set ∷ sets') db db' some_sets words old made =
      let sets = set ∷ sets' in
      let rows = rows_of_sets b (next_set db) 0 sets in
      let found : select (λ r. r.block_id == b.id) db'.block_solution_set ≡ rows =
        ap (select (λ (r : BlockSetRow). r.block_id == b.id)) made.places
        ∙ select-new (λ (r : BlockSetRow). r.block_id == b.id) db.block_solution_set rows
            (All-imp _ _ db.block_solution_set
              (λ (r : BlockSetRow) (k : r.block_id < b.id). ground (arith, k)) old)
            (rows_of_sets-Of b (next_set db) 0 sets) in
      let sorted =
        ap (λ l. sort by_set_index (e.scan BlockSetRow l)) found
        ∙ sort-Ascending by_set_index by_set_index-IsOrder block_set_row_set _ rows
            (rows_of_sets-Ascending b (next_set db) 0 sets) (law.permutes BlockSetRow rows) in
      subst (λ l. ReadsSets db' (set_rows db' l) sets) (sym sorted)
        (fetch_sets-HoldsAll b db' (next_set db) 0 sets words made.holds)

module _ (c : Convert) (h : Hashing) where
  rows_of_sets-Refer :
      (b : BlockRow) (db : Database) (set_id ix n : ℕ) (sets : List SolutionSet)
      → b.id < n
      → HoldsAll c h db set_id sets
      → All
          (λ (r : BlockSetRow). (r.block_id < n) × (r.solution_set_id < next_set db))
          (rows_of_sets b set_id ix sets)
  rows_of_sets-Refer b db set_id ix n [] less holds = tt
  rows_of_sets-Refer b db set_id ix n (s ∷ ss) less holds =
      ((less, holds.0.below), rows_of_sets-Refer b db (suc set_id) (suc ix) n ss less holds.1)

  pub Inserted-RefersToBlocks :
      (b : BlockRow) (sets : List SolutionSet) (db db' : Database)
      → b.id < next_block db
      → RefersToBlocks db
      → Inserted c h b 0 sets db db'
      → RefersToBlocks db'
  Inserted-RefersToBlocks b sets db db' less places made =
      let n = next_block db in
      let P : BlockSetRow → Type 0 = λ r. (r.block_id < n) × (r.solution_set_id < next_set db') in
      let grown = next_set-Grows db db' made.grows in
      let all : All P db'.block_solution_set = subst (All P) (sym made.places) (
        All-append P db.block_solution_set (rows_of_sets b (next_set db) 0 sets)
          (All-imp _ P db.block_solution_set
            (λ (r : BlockSetRow) (k : (r.block_id < n) × (r.solution_set_id < next_set db)).
              (k.0, omega (arith, k.1, grown)))
            places)
          (rows_of_sets-Refer b db' (next_set db) 0 n sets less made.holds)) in
      subst
        (λ m.
          All (λ (r : BlockSetRow). (r.block_id < m) × (r.solution_set_id < next_set db'))
            db'.block_solution_set)
        (ap (λ rows. next_id (map (λ (q : BlockRow). q.id) rows)) (sym made.same_block)) all

-- ===== src/Db/Stored/Unchanged.antt =====
-- `get_block` (crates/node-db/src/lib.rs) of another block than the one that is inserted.
use essential_node.Types.{ContentAddress, Block}
use essential_node.Convert.{Convert}
use essential_node.Hashing.{Hashing}
use essential_node.Db.{BlockRow, BlockSetRow, SolutionSetRow, Database, Engine}
use essential_node.Db.Sort.{sort}
use essential_node.Db.Has.{IsScan, find-Has, find-of_Has}
use essential_node.Db.Listing.{row_header}
use essential_node.Db.Listing.Range.{All, Has-All, All-of_Has, All-sort}
use essential_node.Db.Select.{All-imp, find-same, find-All, select-All, select-grows, next_id-bound}
use essential_node.Db.Statements.{find_block, find_set}
use essential_node.Db.Insert.{insert_block}
use essential_node.Db.Query.{
  get_block, fetch_sets, block_set_rows, set_rows, get_hash, get_solution_set,
}
use essential_node.Db.Stored.{next_set}
use essential_node.Db.Stored.Frame.{Grows}
use essential_node.Db.Stored.Others.{find-Grown_same, get_solution_set-Grows}
use essential_node.Db.Stored.Sets.{rows_of_sets}
use essential_node.Db.GetBlock.{get_block-at, get_block-nowhere}
use essential_node.Db.Stored.Places.{next_block, rows_of_sets-Of}
use essential_node.Db.Stored.Blocks.{new_row, IsNewBlock, Entered, insert_block-Entered}
use essential_node.Prelude.{
  ◌≤◌, ◌<◌, ◌≡◌, refl, ap, ◌∙◌, inl, inr, Option, none, some, List, [], ◌∷◌, map, arith, ◌==◌,
  Option-cases, find, sym, ◌≢◌, Bool, true, false, ltb, Bool-cases, select, ok, ◌>>=◌, bytes_eq,
  bytes_eq_iff, some-eq-some, some-eq-some, bytes_eq_iff, bytes_eq,
}

-- the sets of the places, which name sets that were there
module _ (e : Engine) (c : Convert) (db db' : Database) (g : Grows db db') where
  abbrev address_at : Database → BlockSetRow → Option ContentAddress
  address_at d q = elim (find (λ s. s.id == q.solution_set_id) d.solution_set) [
    | none ↦ none
    | some s ↦ some s.content_addr
  ]

  IsThere : BlockSetRow → Type 0
  IsThere r = r.solution_set_id < next_set db

  address_at-Grows :
      (q : BlockSetRow) → q.solution_set_id < next_set db → address_at db' q ≡ address_at db q
  address_at-Grows q below =
      let same =
        find-Grown_same (λ (s : SolutionSetRow). s.id == q.solution_set_id) db.solution_set
          db'.solution_set (λ s. next_set db ≤ s.id) (λ s k. ground (arith, below, k)) g.sets in
      ap
        (λ o.
          let t : Option ContentAddress = elim o [ none ↦ none | some s ↦ some s.content_addr ] in
          t)
        same

  address_at-found :
      (q : BlockSetRow) {ca : ContentAddress}
      → address_at db q ≡ some ca
      → (s : SolutionSetRow) × (find_set db ca ≡ some s)
  unfolding find_set
  address_at-found q {ca} at =
      let test : SolutionSetRow → Bool = λ s. s.id == q.solution_set_id in
      elim (Option-cases (find test db.solution_set)) [
        | inl gone ↦ let none_at : address_at db q ≡ none = rw (gone, address_at) refl in absurd cc
        | inr (s, there) ↦
            let some_at : address_at db q ≡ some s.content_addr = rw (there, address_at) refl in
            let same : s.content_addr ≡ ca = some-eq-some (sym some_at ∙ at) in
            find-of_Has (λ (r : SolutionSetRow). bytes_eq r.content_addr ca) db.solution_set s
              (find-Has test db.solution_set there).0 ((bytes_eq_iff s.content_addr ca).1 same)
      ]

  fetch_sets-cons :
      (o : Option ContentAddress) (rest rest' : List (Option ContentAddress))
      → ((ca : ContentAddress)
          → o ≡ some ca
          → get_solution_set e c ca db' ≡ get_solution_set e c ca db)
      → fetch_sets e c db' rest' ≡ fetch_sets e c db rest
      → fetch_sets e c db' (o ∷ rest') ≡ fetch_sets e c db (o ∷ rest)
  unfolding fetch_sets get_hash
  fetch_sets-cons none rest rest' same more = refl
  fetch_sets-cons (some ca) rest rest' same more = rw (same ca refl) (rw more refl)

  fetch_sets-map :
      (places : List BlockSetRow)
      → All (λ (r : BlockSetRow). r.solution_set_id < next_set db) places
      → fetch_sets e c db' (map (address_at db') places)
        ≡ fetch_sets e c db (map (address_at db) places)
  unfolding fetch_sets
  fetch_sets-map [] h = refl
  fetch_sets-map (q ∷ qs) h =
      ap (λ o. fetch_sets e c db' (o ∷ map (address_at db') qs)) (address_at-Grows q h.0)
      ∙ fetch_sets-cons (address_at db q) (map (address_at db) qs) (map (address_at db') qs)
          (λ ca at.
            let (s, found) = address_at-found q at in get_solution_set-Grows e c db db' g ca found)
          (fetch_sets-map qs h.1)

  fetch_sets-set_rows :
      (places : List BlockSetRow)
      → All (λ (r : BlockSetRow). r.solution_set_id < next_set db) places
      → fetch_sets e c db' (set_rows db' places) ≡ fetch_sets e c db (set_rows db places)
  unfolding set_rows fetch_sets get_hash
  fetch_sets-set_rows [] h = refl
  fetch_sets-set_rows (q ∷ qs) h = fetch_sets-map (q ∷ qs) h

module _ (c : Convert) (h : Hashing) (e : Engine) (law : IsScan e) where
  -- the sets of a block with another id
  fetch_sets-other :
      (b : Block) (row : BlockRow) (db : Database) {a : ContentAddress} {db' : Database}
      → IsNewBlock c h b db
      → Entered c h b db a db'
      → row.id < next_block db
      → fetch_sets e c db' (block_set_rows e db' row) ≡ fetch_sets e c db (block_set_rows e db row)
  unfolding block_set_rows
  fetch_sets-other b row db {db' = db'} new entered below =
      let sorted : List BlockSetRow → List BlockSetRow =
        sort (λ r s. ltb r.solution_set_index s.solution_set_index) in
      let test : BlockSetRow → Bool = λ r. r.block_id == row.id in
      let added = rows_of_sets (new_row c h b db) (next_set db) 0 b.solution_sets in
      let same : select test db'.block_solution_set ≡ select test db.block_solution_set =
        ap (select test) entered.sets.places
        ∙ select-grows test db.block_solution_set added (
            All-imp _ _ added
              (λ (r : BlockSetRow) (k : (r.block_id == (new_row c h b db).id) ≡ true).
                ground (arith, k, below))
              (rows_of_sets-Of (new_row c h b db) (next_set db) 0 b.solution_sets)) in
      let places = e.scan BlockSetRow (select test db.block_solution_set) in
      let P : BlockSetRow → Type 0 = λ r. r.solution_set_id < next_set db in
      let named : All P (sorted places) =
        All-sort P (λ r s. ltb r.solution_set_index s.solution_set_index) places
          (All-of_Has P places (λ r there.
            Has-All P (select test db.block_solution_set)
              (select-All test P db.block_solution_set (
                All-imp _ P db.block_solution_set
                  (λ (r : BlockSetRow)
                      (k : (r.block_id < next_block db) × (r.solution_set_id < next_set db)).
                    k.1)
                  new.refers_to_blocks))
              r ((law.same_rows BlockSetRow _ r).0 there))) in
      let g : Grows db db' = record {
        sets = entered.sets.grows.sets;
        solutions = entered.sets.grows.solutions;
        mutations = entered.sets.grows.mutations;
        datas = entered.sets.grows.datas;
      } in
      ap (λ l. fetch_sets e c db' (set_rows db' (sorted (e.scan BlockSetRow l)))) same
      ∙ fetch_sets-set_rows e c db db' g (sorted places) named

  -- The insertion of a block that is new to the database changes no other block: under every
  -- address but that of the new block `get_block` gives what it gave before, an error included. The
  -- sets of the new block must be new too and have different addresses, the rows of the database
  -- must name sets, solutions and blocks that are there, and a scan must yield just the rows
  -- that are there.
  pub get_block-insert_block_other :
      (b : Block) (db : Database) (x : ContentAddress) {a : ContentAddress} {db' : Database}
      → insert_block c h b db ≡ ok (a, db')
      → IsNewBlock c h b db
      → x ≢ a
      → get_block e c x db' ≡ get_block e c x db
  unfolding find_block
  get_block-insert_block_other b db x {a} {db'} inserted new other =
      let entered = insert_block-Entered c h b db inserted new in
      let test : BlockRow → Bool = λ r. bytes_eq r.block_address x in
      let miss : test (new_row c h b db) ≡ false = elim (Bool-cases (test (new_row c h b db))) [
        | inl hit ↦ absurd (
            other
              (sym ((bytes_eq_iff (new_row c h b db).block_address x).0 hit) ∙ sym entered.address))
        | inr miss ↦ miss
      ] in
      let same : find_block db' x ≡ find_block db x =
        ap (find test) entered.sets.same_block
        ∙ find-same test db.block (new_row c h b db ∷ []) (miss, tt) in
      elim (Option-cases (find_block db x)) [
        | inl gone ↦
            get_block-nowhere e c x db' (same ∙ gone) ∙ sym (get_block-nowhere e c x db gone)
        | inr (row, there) ↦
            let below =
              find-All test (λ r. r.id < next_block db) db.block there
                (next_id-bound (λ (r : BlockRow). r.id) db.block (next_block db) (omega arith)) in
            get_block-at e c x db' (same ∙ there)
            ∙ ap
                (λ o. o >>= λ sets.
                  ok (some (record { header = row_header row; solution_sets = sets })))
                (fetch_sets-other b row db new entered below)
            ∙ sym (get_block-at e c x db there)
      ]

-- ===== src/Db/Listing/OneByOne.antt =====
-- The lists of crates/node-db/src/lib.rs and `get_block`, block by block.
use mathlib.Core.List.{Mem, mem-cons, mem-cons_self, Nodup-cons, Perm}
use mathlib.Core.List.Perm
use mathlib.Core.Logic.Or
use essential_node.Types.{ContentAddress, SolutionSet, Block}
use essential_node.Convert.{Convert}
use essential_node.Errors.{QueryError}
use essential_node.Db.{BlockRow, BlockSetRow, Database, Engine}
use essential_node.Db.Distinct.{
  IsPermutation, Distinct, Perm-sort, find_block-Distinct, Distinct-select, mem_of_select,
}
use essential_node.Db.GetBlock.{get_block-at}
use essential_node.Db.Sort.{sort}
use essential_node.Db.Statements.{find_block}
use essential_node.Db.Query.{
  get_block, fetch_sets, set_rows, block_set_rows, get_hash, get_solution_set,
}
use essential_node.Db.Listing.{
  ListRow, row_header, block_before, push_to_last, is_last, rows_where, in_range, is_unchecked,
  collect_blocks, list_blocks, list_unchecked_blocks,
}
use essential_node.Prelude.{
  ◌≡◌, refl, ap, ◌∙◌, inl, inr, Bool, false, ◌&&◌, Option, none, some, List, [], ◌∷◌, ◌++◌, map,
  append-nil, append_assoc, ltb, ◌==◌, Bool-cases, set, select, flat, ℤ, Result, ok, ◌>>=◌,
  Result-cases, bytes_eq, bytes_eq_iff, bytes_eq_refl, bytes_eq_iff, bytes_eq,
}

-- the blocks in the order of a list, from a scan of those that pass a test
abbrev pub listed_rows : Engine → (BlockRow → Bool) → Database → List BlockRow
listed_rows e test db = sort block_before (e.scan BlockRow (select test db.block))

listed-perm :
    (e : Engine) (law : IsPermutation e) (test : BlockRow → Bool) (db : Database)
    → Perm (listed_rows e test db) (select test db.block)
listed-perm e law test db =
    Perm.trans (Perm-sort block_before (e.scan BlockRow (select test db.block)))
      (law.permutes BlockRow (select test db.block))

Distinct-listed :
    (e : Engine) (law : IsPermutation e) (test : BlockRow → Bool) (db : Database)
    → Distinct db.block
    → Distinct (listed_rows e test db)
Distinct-listed e law test db distinct =
    Perm.nodup
      (Perm.symm (Perm.map (λ (b : BlockRow). b.block_address) (listed-perm e law test db)))
      (Distinct-select test db.block distinct)

-- the last block of the loop
push_to_last-append :
    (set : SolutionSet) (out : List Block) (b : Block)
    → push_to_last set (out ++ b ∷ [])
      ≡ out ++ record b { solution_sets = b.solution_sets ++ set ∷ [] } ∷ []
push_to_last-append set [] b = refl
push_to_last-append set (x ∷ []) b = refl
push_to_last-append set (x ∷ y ∷ ys) b = ap (◌∷◌ x) (push_to_last-append set (y ∷ ys) b)

module _ (e : Engine) (c : Convert) (db : Database) where
  abbrev rows_of : BlockRow → List (Option ContentAddress) → List ListRow
  rows_of b sets =
      map
        (λ (ca : Option ContentAddress). record {
          block_address = b.block_address;
          header = row_header b;
          content_addr = ca;
        })
        sets

  abbrev with_sets : BlockRow → List SolutionSet → Block
  with_sets b sets = record { header = row_header b; solution_sets = sets }

  -- the rows of the block that is last already
  collect_blocks-same :
      (b : BlockRow) (sets : List (Option ContentAddress)) (rest : List ListRow) (out : List Block)
      (before : List SolutionSet)
      → collect_blocks e c db
          (rows_of b sets ++ rest)
          (out ++ with_sets b before ∷ [])
          (some b.block_address)
        ≡ (fetch_sets e c db sets >>= λ found.
            collect_blocks e c db rest
              (out ++ with_sets b (before ++ found) ∷ [])
              (some b.block_address))
  unfolding collect_blocks fetch_sets get_hash
  collect_blocks-same b [] rest out before = rw append-nil refl
  collect_blocks-same b (none ∷ sets) rest out before = refl
  collect_blocks-same b (some ca ∷ sets) rest out before =
      let set = get_solution_set e c ca db in
      rw (bytes_eq_refl b.block_address) (
        rw (push_to_last-append set out (with_sets b before)) (
          rw (collect_blocks-same b sets rest out (before ++ set ∷ []))
            (elim (Result-cases (fetch_sets e c db sets)) [
              | inl (found, e) ↦ rw e (rw (append_assoc before (set ∷ []) found) refl)
              | inr (failure, e) ↦ rw e refl
            ])))

  set_rows-cons :
      (rs : List BlockSetRow)
      → (ca : Option ContentAddress) × (cas : List (Option ContentAddress)) × (set_rows db rs
          ≡ ca ∷ cas)
  unfolding set_rows
  set_rows-cons [] = (_, _, refl)
  set_rows-cons (r ∷ rs) = (_, _, refl)

  -- the first row of a block that is not the last one
  collect_blocks-new :
      (b : BlockRow) (ca : Option ContentAddress) (cas : List (Option ContentAddress))
      (rest : List ListRow) (out : List Block) (last : Option ContentAddress)
      → is_last last b.block_address ≡ false
      → collect_blocks e c db (rows_of b (ca ∷ cas) ++ rest) out last
        ≡ collect_blocks e c db
            (rows_of b (ca ∷ cas) ++ rest)
            (out ++ with_sets b [] ∷ [])
            (some b.block_address)
  unfolding collect_blocks get_hash
  collect_blocks-new b none cas rest out last new = refl
  collect_blocks-new b (some ca) cas rest out last new =
      rw new (rw (bytes_eq_refl b.block_address) refl)

  collect_blocks-block :
      (b : BlockRow) (rest : List ListRow) (out : List Block) (last : Option ContentAddress)
      → is_last last b.block_address ≡ false
      → collect_blocks e c db (rows_of b (block_set_rows e db b) ++ rest) out last ≡ (
          fetch_sets e c db (block_set_rows e db b) >>= λ found.
          collect_blocks e c db rest (out ++ with_sets b found ∷ []) (some b.block_address))
  unfolding block_set_rows
  collect_blocks-block b rest out last new =
      let (ca, cas, some_rows) = set_rows-cons (
        sort (λ r s. ltb r.solution_set_index s.solution_set_index)
          (e.scan BlockSetRow (select (λ r. r.block_id == b.id) db.block_solution_set))) in
      rw some_rows (
        collect_blocks-new b ca cas rest out last new
        ∙ collect_blocks-same b (ca ∷ cas) rest out [])

  -- each block read by `get_block`, one after the other
  abbrev pub read_each : List BlockRow → Result QueryError (List Block)
  read_each [] = ok []
  read_each (b ∷ bs) = do
    found ← get_block e c b.block_address db
    rest ← read_each bs
    ok (elim found [ none ↦ rest | some block ↦ block ∷ rest ])

  abbrev NotLast : Option ContentAddress → List BlockRow → Type 0
  NotLast last [] = Unit {0}
  NotLast last (b ∷ bs) = is_last last b.block_address ≡ false

  NotLast-none : (bs : List BlockRow) → NotLast none bs
  NotLast-none [] = tt
  NotLast-none (b ∷ bs) = refl

  Distinct-NotLast :
      (b : BlockRow) (bs : List BlockRow) → Distinct (b ∷ bs) → NotLast (some b.block_address) bs
  Distinct-NotLast b [] distinct = tt
  Distinct-NotLast b (b' ∷ bs) distinct =
      elim (Bool-cases (bytes_eq b.block_address b'.block_address)) [
        | inl same ↦ absurd (
            (Nodup-cons.0 distinct).0
              (mem-cons.1 (Or.inl ((bytes_eq_iff b.block_address b'.block_address).0 same))))
        | inr other ↦ other
      ]

  collect_blocks-each :
      (bs : List BlockRow) (out : List Block) (last : Option ContentAddress)
      → Distinct bs
      → NotLast last bs
      → ((b : BlockRow) → Mem b bs → find_block db b.block_address ≡ some b)
      → collect_blocks e c db
          (flat (λ (b : BlockRow). rows_of b (block_set_rows e db b)) bs)
          out
          last
        ≡ (read_each bs >>= λ blocks. ok (out ++ blocks))
  unfolding collect_blocks
  collect_blocks-each [] out last distinct new found = rw append-nil refl
  collect_blocks-each (b ∷ bs) out last distinct new found =
      let rest = flat (λ (b : BlockRow). rows_of b (block_set_rows e db b)) bs in
      let distinct_rest = (Nodup-cons.0 distinct).1 in
      rw (collect_blocks-block b rest out last new) (
        rw (get_block-at e c b.block_address db (found b mem-cons_self))
          (elim (Result-cases (fetch_sets e c db (block_set_rows e db b))) [
            | inl (sets, e1) ↦ rw e1 (
                rw
                  (collect_blocks-each bs (out ++ with_sets b sets ∷ []) (some b.block_address)
                    distinct_rest (Distinct-NotLast b bs distinct)
                    (λ b' there. found b' (mem-cons.1 (Or.inr there))))
                  (elim (Result-cases (read_each bs)) [
                    | inl (blocks, e2) ↦
                        rw e2 (rw (append_assoc out (with_sets b sets ∷ []) blocks) refl)
                    | inr (failure, e2) ↦ rw e2 refl
                  ]))
            | inr (failure, e1) ↦ rw e1 refl
          ]))

  rows_where-each :
      IsPermutation e
      → Distinct db.block
      → (test : BlockRow → Bool)
      → collect_blocks e c db (rows_where e test db) [] none ≡ read_each (listed_rows e test db)
  unfolding rows_where find_block
  rows_where-each law distinct test =
      let rows = listed_rows e test db in
      let one =
        collect_blocks-each rows [] none (Distinct-listed e law test db distinct)
          (NotLast-none rows)
          (λ b there.
            find_block-Distinct db.block b distinct (
              mem_of_select test db.block b
                ((Perm.mem_iff (listed-perm e law test db)).0 there))) in
      one ∙ elim (Result-cases (read_each rows)) [
        | inl (blocks, h) ↦ rw h refl
        | inr (failure, h) ↦ rw h refl
      ]

  -- `list_blocks` and `list_unchecked_blocks` read just what `get_block` reads of each block in
  -- turn, in the order of the numbers, and fail just where one of these calls fails, with its
  -- error: of the blocks whose number is in the range, and of those of them that have not failed.
  -- The blocks must have different addresses, and a scan must yield each row as often as it is
  -- there.
  pub list_blocks-OneByOne :
      IsPermutation e
      → Distinct db.block
      → (start end : ℤ)
      → (list_blocks e c start end db ≡ read_each (listed_rows e (in_range e start end) db))
        × (list_unchecked_blocks e c start end db
            ≡ read_each (listed_rows e (λ b. in_range e start end b && is_unchecked e db b) db))
  unfolding list_blocks list_unchecked_blocks
  list_blocks-OneByOne law distinct start end = (
    rows_where-each law distinct (in_range e start end),
    rows_where-each law distinct (λ b. in_range e start end b && is_unchecked e db b),
  )

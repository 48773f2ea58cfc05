-- ===== src/Node/Entered.antt =====
-- The database that `ensure_big_bang_block` of crates/node/src/lib.rs leaves of a new one.
use mathlib.Core.List.{Nodup-nil, Nodup-cons, not-mem-nil}
use mathlib.Core.List.Perm
use essential_node.Types.{ContentAddress, SolutionSet, Block}
use essential_node.Types.BigBang.{BigBang}
use essential_node.Types.BigBang
use essential_node.Types.Addr.{
  from_block, from_header_and_solution_set_addrs, from_header_and_solution_set_addrs_slice,
}
use essential_node.Convert.{Convert, IsConvert}
use essential_node.Hashing.{Hashing}
use essential_node.Errors.{RusqliteError}
use essential_node.Db.{BlockRow, FinalizedRow, SolutionRow, Database, Engine, create_tables}
use essential_node.Db.Distinct.{IsPermutation, Distinct}
use essential_node.Db.Sort.{sort}
use essential_node.Db.Ascending.{Perm-singleton}
use essential_node.Db.Stored.Alike.{AlikeSets}
use essential_node.Db.Finality.{finalize_found}
use essential_node.Db.Statements.{
  next_id, find_block, find_set, find_solution, solution_id, insert_block_row,
}
use essential_node.Db.Insert.{insert_block, finalize_block, to_sql, insert_sets}
use essential_node.Db.Query.{
  get_latest_finalized_block_address, get_block, fetch_sets, block_set_rows, set_rows, get_hash,
  get_solution_set, fetch_solutions, fetch_solution, mutation_rows, pred_data_rows, solution_rows,
}
use essential_node.Db.Listing
use essential_node.Db.Listing.OneByOne.{read_each, listed_rows, list_blocks-OneByOne}
use essential_node.Db.GetBlock.{get_block-at, get_block-nowhere}
use essential_node.Db.Listing.{in_range, row_header, block_before}
use essential_node.Db.Stored.New.{Refers, added, insert_whole_set-added}
use essential_node.Db.Stored.Places.{AreBlockWords}
use essential_node.Db.Stored.Blocks.{new_row, with_row, find_block-with_row, IsNewBlock}
use essential_node.Db.Stored.RoundTrip.{get_block-insert_block}
use essential_node.Node.{insert_and_finalize}
use essential_node.Prelude.{
  ℕ, suc, ◌≡◌, refl, ap, Option, none, some, List, [], ◌∷◌, pos, Result, ok, sym, ◌∙◌, inl, inr,
  Option-cases, ◌>>=◌,
}

-- what of a database no query of a block reads
abbrev with_chain : Database → List FinalizedRow → Option ℕ → Database
with_chain db finalized progress = record db { finalized_block = finalized; progress = progress }

module _ (e : Engine) (c : Convert) (db : Database) (f : List FinalizedRow) (p : Option ℕ) where
  fetch_solutions-chain :
      (ca : ContentAddress) (ix : ℕ) (rows : List SolutionRow)
      → fetch_solutions e c ca (with_chain db f p) ix rows ≡ fetch_solutions e c ca db ix rows
  unfolding fetch_solutions fetch_solution mutation_rows pred_data_rows solution_id find_set
      find_solution
  fetch_solutions-chain ca ix [] = refl
  fetch_solutions-chain ca ix (r ∷ rs) =
      ap (◌∷◌ (fetch_solution e c ca db ix r)) (fetch_solutions-chain ca (suc ix) rs)

  get_solution_set-chain :
      (ca : ContentAddress)
      → get_solution_set e c ca (with_chain db f p) ≡ get_solution_set e c ca db
  unfolding get_solution_set solution_rows find_set
  get_solution_set-chain ca =
      ap (λ ss. let s : SolutionSet = record { solutions = ss } in s)
        (fetch_solutions-chain ca 0 (solution_rows e ca db))

  fetch_sets-chain :
      (rows : List (Option ContentAddress))
      → fetch_sets e c (with_chain db f p) rows ≡ fetch_sets e c db rows
  unfolding fetch_sets get_hash
  fetch_sets-chain [] = refl
  fetch_sets-chain (none ∷ rows) = refl
  fetch_sets-chain (some ca ∷ rows) =
      rw (get_solution_set-chain ca) (rw (fetch_sets-chain rows) refl)

  pub get_block-chain :
      (x : ContentAddress) → get_block e c x (with_chain db f p) ≡ get_block e c x db
  unfolding find_block block_set_rows set_rows
  get_block-chain x = elim (Option-cases (find_block db x)) [
    | inl gone ↦
        get_block-nowhere e c x (with_chain db f p) gone ∙ sym (get_block-nowhere e c x db gone)
    | inr (row, there) ↦
        get_block-at e c x (with_chain db f p) there
        ∙ ap
            (λ o.
              o >>= λ sets. ok (some (record { header = row_header row; solution_sets = sets })))
            (fetch_sets-chain (block_set_rows e db row))
        ∙ sym (get_block-at e c x db there)
  ]

block_row_set : IsSet BlockRow
block_row_set = hlevel

module _ (c : Convert) (h : Hashing) (big : BigBang) where
  abbrev pub bb_block : Block
  bb_block = BigBang.block big

  abbrev pub bb_ca : ContentAddress
  bb_ca = from_block h bb_block

  abbrev set_ca : ContentAddress
  set_ca = h.solution_set_addr big.solution_set

  abbrev pub bb_row : BlockRow
  bb_row = new_row c h bb_block create_tables

  -- the database with the block, with the block finalized, and with the progress at it
  abbrev pub inserted : Database
  inserted = added c bb_row set_ca 0 big.solution_set (with_row c h bb_block create_tables)

  abbrev pub finalized : Database
  finalized = record inserted {
    finalized_block = record { block_number = pos 0; block_id = bb_row.id } ∷ [];
  }

  abbrev pub started : Database
  started = record finalized { progress = some bb_row.id }

  bb_IsNew : IsNewBlock c h bb_block create_tables
  unfolding find_block find_set BigBang.block
  bb_IsNew = record {
    new_address = refl;
    new_sets = (refl, tt, tt);
    refers = record { of_solutions = tt; of_mutations = tt; of_data = tt };
    refers_to_blocks = tt;
  }

  new_set : find_set (with_row c h bb_block create_tables) set_ca ≡ none
  unfolding find_set
  new_set = refl

  none_yet : Refers (with_row c h bb_block create_tables)
  none_yet = record { of_solutions = tt; of_mutations = tt; of_data = tt }

  insert_block-inserted : insert_block c h bb_block create_tables ≡ ok (bb_ca, inserted)
  unfolding insert_block to_sql from_block from_header_and_solution_set_addrs
      from_header_and_solution_set_addrs_slice insert_sets BigBang.block insert_block_row find_block
  insert_block-inserted =
      ap (λ d. let out : Result RusqliteError (ContentAddress × Database) = ok (bb_ca, d) in out)
        (insert_whole_set-added c bb_ca set_ca 0 big.solution_set
          (with_row c h bb_block create_tables)
          (find_block-with_row c h bb_block create_tables refl) new_set refl none_yet)

  pub found : find_block started bb_ca ≡ some bb_row
  unfolding find_block
  found = find_block-with_row c h bb_block create_tables refl

  module _ (laws : IsConvert c) (e : Engine) (law : IsPermutation e) where
    pub insert_and_finalize-finalized :
        insert_and_finalize c h e bb_block bb_ca create_tables ≡ ok (tt, finalized)
    unfolding insert_and_finalize finalize_block find_block BigBang.block
    insert_and_finalize-finalized =
        let final : finalize_block bb_ca inserted ≡ ok finalized =
          finalize_found bb_ca inserted bb_row found in
        rw insert_block-inserted (rw final refl)

    one_row : e.scan BlockRow (bb_row ∷ []) ≡ bb_row ∷ []
    one_row = Perm-singleton block_row_set _ bb_row (law.permutes BlockRow (bb_row ∷ []))

    -- the block as it is read back
    pub record ReadBack (back : Block) : Type 0 where
      pub read : get_block e c bb_ca started ≡ ok (some back)
      pub same_header : back.header ≡ bb_block.header
      pub alike : AlikeSets back.solution_sets bb_block.solution_sets

    pub get_block-started : AreBlockWords (big.solution_set ∷ []) → (back : Block) × ReadBack back
    unfolding BigBang.block
    get_block-started words =
        let (sets, read, alike) =
          (get_block-insert_block c laws h e law bb_block create_tables insert_block-inserted
            bb_IsNew (λ e. cc) words).1 in
        (
          record bb_block { solution_sets = sets },
          record {
            read =
                get_block-chain e c inserted finalized.finalized_block (some bb_row.id) bb_ca
                ∙ read;
            same_header = refl;
            alike = alike;
          },
        )

    pub no_blocks : Listing.list_blocks e c (pos 0) (pos 1) create_tables ≡ ok []
    unfolding Listing.list_blocks Listing.rows_where Listing.collect_blocks
    no_blocks = rw (Perm.eq-nil (law.permutes BlockRow [])) refl

    pub one_block :
        (back : Block)
        → ReadBack back
        → Listing.list_blocks e c (pos 0) (pos 1) started ≡ ok (back ∷ [])
    unfolding in_range BigBang.block
    one_block back reads =
        let distinct : Distinct started.block =
          Nodup-cons.1 (λ there. not-mem-nil there, Nodup-nil) in
        let rows : listed_rows e (in_range e (pos 0) (pos 1)) started ≡ bb_row ∷ [] =
          ap (sort block_before) one_row in
        (list_blocks-OneByOne e c started law distinct (pos 0) (pos 1)).0
        ∙ ap (read_each e c started) rows
        ∙ rw reads.read refl

    pub latest-started : get_latest_finalized_block_address e started ≡ some bb_ca
    unfolding get_latest_finalized_block_address next_id
    latest-started = rw (get_latest_finalized_block_address, one_row) refl

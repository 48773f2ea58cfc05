-- ===== src/Db/EmptyBlock.antt =====
-- What a block without solution sets does to `get_block` (crates/node-db/src/lib.rs).
use essential_node.Types.{ContentAddress}
use essential_node.Convert.{Convert}
use essential_node.Errors.{rusqlite, invalid_column_type}
use essential_node.Db.{BlockRow, BlockSetRow, Database, Engine}
use essential_node.Db.Statements.{find_block}
use essential_node.Db.Query.{
  get_block, get_block_header, fetch_sets, block_set_rows, set_rows, get_hash,
}
use essential_node.Db.Has.{Has, IsScan}
use essential_node.Prelude.{◌≡◌, refl, subst, inl, some, List, [], ◌∷◌, ◌==◌, select, err}

module _ (e : Engine) (law : IsScan e) where
  scan_empty : {A : Type 0} (xs : List A) → xs ≡ [] → e.scan A xs ≡ []
  scan_empty {A} xs empty =
      only (e.scan A xs) (λ x h. subst (Has x) empty ((law.same_rows A xs x).0 h))
    where
      only : (ys : List A) → ((x : A) → Has x ys → ⊥) → ys ≡ []
      only [] h = refl
      only (y ∷ ys) h = absurd (h y (inl refl))

  -- A block that is in the database with no row for a solution set cannot be read: the query is an
  -- error for the null address of the left join, provided that a scan yields just the rows that
  -- are there.
  pub get_block-no_sets :
      (c : Convert) (address : ContentAddress) (db : Database) (b : BlockRow)
      → find_block db address ≡ some b
      → select (λ (r : BlockSetRow). r.block_id == b.id) db.block_solution_set ≡ []
      → get_block e c address db ≡ err (rusqlite invalid_column_type)
  unfolding get_block get_block_header fetch_sets block_set_rows set_rows get_hash
  get_block-no_sets c address db b there none_of =
      let rows =
        scan_empty (select (λ (r : BlockSetRow). r.block_id == b.id) db.block_solution_set)
          none_of in
      rw (there, get_block, get_block_header) (rw there (rw (rows, block_set_rows) refl))

-- ===== src/Db/Listing/Range.antt =====
-- Which blocks the lists of crates/node-db/src/lib.rs hold.
use essential_node.Types.{Header, SolutionSet, Block, ContentAddress}
use essential_node.Convert.{Convert}
use essential_node.Db.{BlockRow, Database, Engine}
use essential_node.Db.Sort.{insert_sorted, sort}
use essential_node.Db.Has.{Has, IsScan, Has-select}
use essential_node.Db.Query.{block_set_rows, get_hash, get_solution_set}
use essential_node.Db.Listing.{
  ListRow, row_header, block_before, push_to_last, is_last, open_block, rows_where, in_range,
  collect_blocks, list_blocks,
}
use essential_node.Prelude.{
  ◌≡◌, refl, subst, inl, inr, Bool, true, false, Option, some, List, [], ◌∷◌, ◌++◌, Bool-cases, set,
  ok, >>=-eq-ok, ok-eq-ok, none, map, select, flat, ℤ, ◌≤ℤ◌, ◌<ℤ◌, arith, sym,
}

-- every element has the property
abbrev pub All : {A : Type 0} → (A → Type 0) → List A → Type 0
All P [] = Unit {0}
All P (x ∷ xs) = P x × All P xs

module _ {A : Type 0} (P : A → Type 0) where
  pub All-append : (xs ys : List A) → All P xs → All P ys → All P (xs ++ ys)
  All-append [] ys h k = k
  All-append (x ∷ xs) ys h k = (h.0, All-append xs ys h.1 k)

  pub Has-All : (xs : List A) → All P xs → (x : A) → Has x xs → P x
  Has-All [] k x h = absurd h
  Has-All (y ∷ ys) k x h = elim h [
    | inl same ↦ subst P (sym same) k.0
    | inr more ↦ Has-All ys k.1 x more
  ]

  pub All-of_Has : (xs : List A) → ((x : A) → Has x xs → P x) → All P xs
  All-of_Has [] h = tt
  All-of_Has (x ∷ xs) h = (h x (inl refl), All-of_Has xs (λ y there. h y (inr there)))

  pub All-insert_sorted :
      (before : A → A → Bool) (x : A) (xs : List A)
      → P x
      → All P xs
      → All P (insert_sorted before x xs)
  All-insert_sorted before x [] h k = (h, tt)
  All-insert_sorted before x (y ∷ ys) h k = elim (Bool-cases (before y x)) [
    | inl hit ↦ rw hit (k.0, All-insert_sorted before x ys h k.1)
    | inr miss ↦ rw miss (h, k)
  ]

  pub All-sort : (before : A → A → Bool) (xs : List A) → All P xs → All P (sort before xs)
  All-sort before [] h = tt
  All-sort before (x ∷ xs) h =
      All-insert_sorted before x (sort before xs) h.0 (All-sort before xs h.1)

module _ (P : Header → Type 0) where
  All-push_to_last :
      (set : SolutionSet) (blocks : List Block)
      → All (λ b. P b.header) blocks
      → All (λ b. P b.header) (push_to_last set blocks)
  All-push_to_last set [] h = tt
  All-push_to_last set (b ∷ []) h = (h.0, tt)
  All-push_to_last set (b ∷ b' ∷ bs) h = (h.0, All-push_to_last set (b' ∷ bs) h.1)

  All-open_block :
      (old : Bool) (header : Header) (blocks : List Block)
      → P header
      → All (λ b. P b.header) blocks
      → All (λ b. P b.header) (open_block old header blocks)
  All-open_block true header blocks here h = h
  All-open_block false header blocks here h =
      All-append (λ (b : Block). P b.header) blocks _ h (here, tt)

  -- the blocks of a list have the headers of its rows
  collect_blocks-All :
      (e : Engine) (c : Convert) (db : Database) (rows : List ListRow) (blocks : List Block)
      (last : Option ContentAddress) {out : List Block}
      → All (λ r. P r.header) rows
      → All (λ b. P b.header) blocks
      → collect_blocks e c db rows blocks last ≡ ok out
      → All (λ b. P b.header) out
  unfolding collect_blocks
  collect_blocks-All e c db [] blocks last h k eq = subst (All (λ b. P b.header)) (ok-eq-ok eq) k
  collect_blocks-All e c db (r ∷ rs) blocks last h k eq =
      let (ca, found, more) =
        >>=-eq-ok (get_hash r.content_addr)
          (λ ca.
            collect_blocks e c db rs
              (push_to_last (get_solution_set e c ca db)
                (open_block (is_last last r.block_address) r.header blocks))
              (some r.block_address))
          eq in
      collect_blocks-All e c db rs _ _ h.1
        (All-push_to_last (get_solution_set e c ca db) _
          (All-open_block (is_last last r.block_address) r.header blocks h.0 k))
        more

All-rows :
    (P : Header → Type 0) (b : BlockRow) (sets : List (Option ContentAddress))
    → P (row_header b)
    → All
        (λ (r : ListRow). P r.header)
        (map
          (λ (ca : Option ContentAddress). record {
            block_address = b.block_address;
            header = row_header b;
            content_addr = ca;
          })
          sets)
All-rows P b [] h = tt
All-rows P b (ca ∷ sets) h = (h, All-rows P b sets h)

pub All-flat :
    {A B : Type 0} (P : A → Type 0) (Q : B → Type 0) (f : A → List B) (xs : List A)
    → ((x : A) → P x → All Q (f x))
    → All P xs
    → All Q (flat f xs)
All-flat P Q f [] h k = tt
All-flat P Q f (x ∷ xs) h k = All-append Q (f x) (flat f xs) (h x k.0) (All-flat P Q f xs h k.1)

-- the rows of the blocks that pass the test
pub rows_where-All :
    (P : Header → Type 0) (e : Engine) (law : IsScan e) (test : BlockRow → Bool) (db : Database)
    → ((b : BlockRow) → test b ≡ true → P (row_header b))
    → All (λ (r : ListRow). P r.header) (rows_where e test db)
unfolding rows_where
rows_where-All P e law test db passes =
    let Q : BlockRow → Type 0 = λ b. P (row_header b) in
    let there : All Q (e.scan BlockRow (select test db.block)) =
      All-of_Has Q (e.scan BlockRow (select test db.block))
        (λ b h. passes b ((Has-select test db.block b).0 ((law.same_rows BlockRow _ b).0 h)).1) in
    All-flat Q (λ (r : ListRow). P r.header) _
      (sort block_before (e.scan BlockRow (select test db.block)))
      (λ b h. All-rows P b (block_set_rows e db b) h)
      (All-sort Q block_before (e.scan BlockRow (select test db.block)) there)

-- Every block that `list_blocks` lists has its number in the range, whatever the order in which a
-- scan yields the rows, provided that it yields just those that are there.
pub list_blocks-in_range :
    (e : Engine) (law : IsScan e) (c : Convert) (start end : ℤ) (db : Database)
    {blocks : List Block}
    → list_blocks e c start end db ≡ ok blocks
    → All (λ b. (start ≤ℤ b.header.number) × (b.header.number <ℤ end)) blocks
unfolding list_blocks in_range
list_blocks-in_range e law c start end db eq =
    let P : Header → Type 0 = λ h. (start ≤ℤ h.number) × (h.number <ℤ end) in
    collect_blocks-All P e c db (rows_where e (in_range e start end) db) [] none
      (rows_where-All P e law (in_range e start end) db (λ b h. ground (arith, h))) tt eq

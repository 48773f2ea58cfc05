-- ===== src/Db/LatestBlock.antt =====
-- The row that get_latest_finalized_block_address (crates/node-db/src/lib.rs) picks.
use essential_node.Db.{BlockRow, Database, Engine}
use essential_node.Db.Has.{Has, IsScan, Has-select}
use essential_node.Db.Finalized.Latest.{IsOrder, sort-First}
use essential_node.Db.Query.{get_latest_finalized_block_address}
use essential_node.Prelude.{
  ◌≡◌, refl, ap, subst, ◌∙◌, ◌≢◌, ◌⊎◌, inl, inr, Bool, true, false, none, some, arith, ◌==◌, select,
  exists, ◌<ℤ◌, ltb_ℤ,
}

-- the order of get_latest_finalized_block_address.sql
abbrev pub higher : BlockRow → BlockRow → Bool
higher a b = ltb_ℤ b.number a.number

pub higher-IsOrder : IsOrder higher
higher-IsOrder = record {
  irreflexive = λ x. ground arith;
  asymmetric = λ x y h. ground arith;
  tied = λ x y z h k. ground arith;
}

abbrev pub is_finalized : Database → BlockRow → Bool
is_finalized db b = exists (λ f. f.block_id == b.id) db.finalized_block

-- a finalized row of the greatest number, or none where no row is finalized
pub latest_block-Cases :
    (e : Engine) (law : IsScan e) (db : Database)
    → ((get_latest_finalized_block_address e db ≡ none)
        × ((r : BlockRow) → Has r db.block → is_finalized db r ≢ true))
      ⊎ ((m : BlockRow) × Has m db.block
          × (is_finalized db m ≡ true)
          × ((r : BlockRow) → Has r db.block → is_finalized db r ≡ true → higher r m ≡ false)
          × (get_latest_finalized_block_address e db ≡ some m.block_address))
unfolding get_latest_finalized_block_address
latest_block-Cases e law db =
    let rows = select (is_finalized db) db.block in
    let here : (r : BlockRow)
        → Has r db.block
        → is_finalized db r ≡ true
        → Has r (e.scan BlockRow rows) =
      λ r there final.
        (law.same_rows BlockRow rows r).1
          ((Has-select (is_finalized db) db.block r).1 (there, final)) in
    elim (sort-First higher higher-IsOrder (e.scan BlockRow rows)) [
      | inl (s, empty) ↦ inl (
        rw (s, get_latest_finalized_block_address) refl,
        λ r there final. subst (Has r) empty (here r there final),
      )
      | inr (m, rest, s, (m_here, first)) ↦
          let (there, final) =
            (Has-select (is_finalized db) db.block m).0
              ((law.same_rows BlockRow rows m).0 m_here) in
          inr (
            m,
            there,
            final,
            λ r r_there r_final. first r (here r r_there r_final),
            rw (s, get_latest_finalized_block_address) refl,
          )
    ]

-- the only row of the greatest number
pub latest-greatest :
    (e : Engine) (law : IsScan e) (db : Database) (row : BlockRow)
    → Has row db.block
    → is_finalized db row ≡ true
    → ((r : BlockRow)
        → Has r db.block
        → is_finalized db r ≡ true
        → (r ≡ row) ⊎ (r.number <ℤ row.number))
    → get_latest_finalized_block_address e db ≡ some row.block_address
latest-greatest e law db row there final greatest = elim (latest_block-Cases e law db) [
  | inl (nothing, none_final) ↦ absurd (none_final row there final)
  | inr (m, m_there, m_final, first, latest) ↦
      latest
      ∙ ap (λ (r : BlockRow). some r.block_address)
          (elim (greatest m m_there m_final) [
            | inl same ↦ same
            | inr less ↦ absurd (ground (arith, first row there final, less))
          ])
]

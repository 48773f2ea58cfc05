-- ===== src/Validation/Ahead.antt =====
-- When the validation stream (crates/node/src/validation.rs) goes on with another round.
use essential_node.Convert.{Convert}
use essential_node.Hashing.{Hashing}
use essential_node.Db.{BlockRow, FinalizedRow, Database, Engine}
use essential_node.Db.Has.{Has, IsScan, exists-Has, exists-of_Has}
use essential_node.Db.LatestBlock.{is_finalized, latest_block-Cases}
use essential_node.Db.Statements.{find_block}
use essential_node.Db.Query.{get_block_header, get_latest_finalized_block_address}
use essential_node.Validation.Step.{latest_number, is_behind}
use essential_node.Validation.Next.{UniqueRows, find_block-of_row}
use essential_node.Prelude.{
  ◌≡◌, refl, ◌↔◌, inl, inr, true, none, some, arith, ◌==◌, ==_iff, ℤ, ◌<ℤ◌, ==_iff,
}

-- a finalized block has a greater number
abbrev pub IsAheadOf : ℤ → Database → Type 0
IsAheadOf n db =
    (b : BlockRow) × (f : FinalizedRow) × Has b db.block
    × Has f db.finalized_block
    × (f.block_id ≡ b.id)
    × (n <ℤ b.number)

finalized-row :
    (db : Database) (b : BlockRow)
    → is_finalized db b ≡ true
    → (f : FinalizedRow) × Has f db.finalized_block × (f.block_id ≡ b.id)
finalized-row db b final =
    let (f, there, same) =
      exists-Has (λ (f : FinalizedRow). f.block_id == b.id) db.finalized_block final in
    (f, there, (==_iff f.block_id b.id).0 same)

module _ (c : Convert) (h : Hashing) (e : Engine) where
  latest_number-of_row :
      (db : Database) (m : BlockRow)
      → get_latest_finalized_block_address e db ≡ some m.block_address
      → find_block db m.block_address ≡ some m
      → latest_number c h e db ≡ some m.number
  unfolding latest_number get_block_header
  latest_number-of_row db m latest found =
      rw (latest_number, latest) (rw (get_block_header, found) refl)

  latest_number-none :
      (db : Database)
      → get_latest_finalized_block_address e db ≡ none
      → latest_number c h e db ≡ none
  unfolding latest_number
  latest_number-none db nothing = rw (latest_number, nothing) refl

  pub is_behind-IsAheadOf :
      (law : IsScan e) (n : ℤ) (db : Database)
      → UniqueRows db.block
      → (is_behind c h e n (latest_number c h e db) ≡ true) ↔ IsAheadOf n db
  is_behind-IsAheadOf law n db unique = elim (latest_block-Cases e law db) [
    | inl (nothing, none_final) ↦ rw (latest_number-none db nothing) (
      λ behind. absurd cc,
      λ ahead.
          let (b, f, there, final, same, less) = ahead in
          absurd (
            none_final b there (
              exists-of_Has (λ (f : FinalizedRow). f.block_id == b.id) db.finalized_block f final
                ((==_iff f.block_id b.id).1 same))),
    )
    | inr (m, m_there, m_final, first, latest) ↦
        rw (latest_number-of_row db m latest (find_block-of_row db m unique m_there)) (
          λ behind.
              let (f, there, same) = finalized-row db m m_final in
              (m, f, m_there, there, same, ground (arith, behind)),
          λ ahead.
              let (b, f, there, final, same, less) = ahead in
              let lower = first b there (
                exists-of_Has (λ (f : FinalizedRow). f.block_id == b.id) db.finalized_block f final
                  ((==_iff f.block_id b.id).1 same)) in
              ground (arith, lower, less),
        )
  ]

-- ===== src/Db/Finalized/Latest.antt =====
-- Which write a query of the finalized state returns.
use essential_node.Types.{ContentAddress, Key}
use essential_node.Convert.{Convert}
use essential_node.Blob.{blob_from_words}
use essential_node.Db.{Database, Engine}
use essential_node.Db.Has.{Has, IsScan, Has-select}
use essential_node.Db.Insert.{to_sql, sql_integer_limit}
use essential_node.Db.Sort.{insert_sorted, sort}
use essential_node.Db.Finalized.{
  Write, writes, at_or_before, later, value_words, latest, query_state_inclusive_block,
  query_state_inclusive_solution_set,
}
use essential_node.Prelude.{
  ◌≡◌, refl, subst, ◌⊎◌, inl, inr, Bool, true, false, List, [], ◌∷◌, arith, Bool-cases, select, ℕ,
  ◌<◌, ◌≢◌, not, Option, none, some, lt→ltb, ℤ, ltb_ℤ, ok,
}

-- no element of the list comes before this one of it
abbrev pub First : {A : Type 0} → (A → A → Bool) → List A → A → Type 0
First {A} before xs m = Has m xs × ((v : A) → Has v xs → before v m ≡ false)

-- a strict order whose ties are transitive
pub record IsOrder {A : Type 0} (before : A → A → Bool) : Type 0 where
  pub irreflexive : (x : A) → before x x ≡ false
  pub asymmetric : (x y : A) → before x y ≡ true → before y x ≡ false
  pub tied : (x y z : A) → before x y ≡ false → before y z ≡ false → before x z ≡ false

module _ {A : Type 0} (before : A → A → Bool) (order : IsOrder before) where
  pub sort-First :
      (xs : List A)
      → (sort before xs ≡ []) × (xs ≡ [])
        ⊎ ((m : A) × (rest : List A) × (sort before xs ≡ m ∷ rest) × First before xs m)
  sort-First [] = inl (refl, refl)
  sort-First (x ∷ xs) = elim (sort-First xs) [
    | inl (e, empty) ↦ inr (
      x,
      [],
      rw e refl,
      (
        inl refl,
        λ v h. elim h [
          | inl same ↦ rw same (order.irreflexive x)
          | inr more ↦ absurd (subst (Has v) empty more)
        ],
      ),
    )
    | inr (m, rest, e, first) ↦ elim (Bool-cases (before m x)) [
      | inl hit ↦ inr (
        m,
        insert_sorted before x rest,
        rw e (rw hit refl),
        (
          inr first.0,
          λ v h. elim h [
            | inl same ↦ rw same (order.asymmetric m x hit)
            | inr more ↦ first.1 v more
          ],
        ),
      )
      | inr miss ↦ inr (
        x,
        m ∷ rest,
        rw e (rw miss refl),
        (
          inl refl,
          λ v h. elim h [
            | inl same ↦ rw same (order.irreflexive x)
            | inr more ↦ order.tied v m x (first.1 v more) miss
          ],
        ),
      )
    ]
  ]

later-IsOrder : IsOrder later
later-IsOrder = record {
  irreflexive = λ x. ground arith;
  asymmetric = λ x y h. ground arith;
  tied = λ x y z h k. ground arith;
}

-- The latest of the writes that pass the test, or none where none does.
abbrev pub IsLatest : (Write → Bool) → List Write → Option Write → Type 0
IsLatest test ws none = (v : Write) → Has v ws → test v ≢ true
IsLatest test ws (some w) =
    Has w ws × (test w ≡ true) × ((v : Write) → Has v ws → test v ≡ true → later v w ≡ false)

module _ (e : Engine) (law : IsScan e) where
  latest-IsLatest : (test : Write → Bool) (ws : List Write) → IsLatest test ws (latest e test ws)
  unfolding latest
  latest-IsLatest test ws = elim (sort-First later later-IsOrder (e.scan Write (select test ws))) [
    | inl (s, empty) ↦ rw s (λ v there passes.
        subst (Has v) empty
          ((law.same_rows Write (select test ws) v).1 ((Has-select test ws v).1 (there, passes))))
    | inr (m, rest, s, (here, before)) ↦
        let found = (Has-select test ws m).0 ((law.same_rows Write (select test ws) m).0 here) in
        rw s (
          found.0,
          found.1,
          λ v there passes. before v (
              (law.same_rows Write (select test ws) v).1
                ((Has-select test ws v).1 (there, passes))),
        )
  ]

  -- The queries of the finalized state return the value of the latest finalized write at the
  -- contract and key: of those up to the block, and of those up to the solution set of the block,
  -- whose index must be below 2^63. Nothing is returned where there is none. A write is later
  -- where its block has a greater number, or the same and its set a greater index in it. This
  -- holds in whatever order a scan yields the rows, provided that it yields just those that are
  -- there.
  pub query_state_finalized-IsLatest :
      (c : Convert) (ca : ContentAddress) (key : Key) (n : ℤ) (ix : ℕ) (db : Database)
      → ix < sql_integer_limit
      → ((w : Option Write) × IsLatest
            (λ v. not (ltb_ℤ n v.block_number))
            (writes ca (blob_from_words c key) db)
            w
          × (query_state_inclusive_block e c ca key n db ≡ ok (value_words c w)))
        × ((w : Option Write) × IsLatest
              (at_or_before n ix)
              (writes ca (blob_from_words c key) db)
              w
            × (query_state_inclusive_solution_set e c ca key n ix db ≡ ok (value_words c w)))
  unfolding query_state_inclusive_block query_state_inclusive_solution_set to_sql
  query_state_finalized-IsLatest c ca key n ix db small = (
    (
      _,
      latest-IsLatest (λ v. not (ltb_ℤ n v.block_number)) (writes ca (blob_from_words c key) db),
      refl,
    ),
    (
      _,
      latest-IsLatest (at_or_before n ix) (writes ca (blob_from_words c key) db),
      rw (lt→ltb ix sql_integer_limit small) refl,
    ),
  )

-- ===== src/Db/Transaction.antt =====
-- `with_tx` and `with_tx_dropped` of crates/node-db/src/lib.rs. A transaction works on the database as
-- it is and its writes are there for others once it commits; one that is dropped leaves nothing.
use essential_node.Db.{Database}
use essential_node.Prelude.{Result, ok, err, ◌≡◌, inl, inr, arith, Result-cases, refl}

module _ {E T : Type 0} where
  -- the result, and the database after the call
  unfoldable pub with_tx : (Database → Result E (T × Database)) → Database → Result E T × Database
  with_tx f db = elim (f db) [ ok (out, db') ↦ (ok out, db') | err e ↦ (err e, db) ]

  unfoldable pub with_tx_dropped :
      (Database → Result E (T × Database)) → Database → Result E T × Database
  with_tx_dropped f db = elim (f db) [ ok (out, db') ↦ (ok out, db) | err e ↦ (err e, db) ]

  -- A transaction that fails leaves the database as it was.
  pub with_tx-err :
      (f : Database → Result E (T × Database)) (db : Database) {e : E}
      → (with_tx f db).0 ≡ err e
      → (with_tx f db).1 ≡ db
  unfolding with_tx
  with_tx-err f db h = elim (Result-cases (f db)) [
    | inl (out, e) ↦ absurd (ground (arith, e))
    | inr (g, e) ↦ rw (e, with_tx)
  ]

  -- a transaction that ends well commits
  pub with_tx-of_ok :
      (f : Database → Result E (T × Database)) (db : Database) {out : T} {db' : Database}
      → f db ≡ ok (out, db')
      → with_tx f db ≡ (ok out, db')
  unfolding with_tx
  with_tx-of_ok f db e = rw (e, with_tx) refl

  pub with_tx-of_err :
      (f : Database → Result E (T × Database)) (db : Database) {failure : E}
      → f db ≡ err failure
      → with_tx f db ≡ (err failure, db)
  unfolding with_tx
  with_tx-of_err f db e = rw (e, with_tx) refl

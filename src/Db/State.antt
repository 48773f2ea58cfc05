-- ===== src/Db/State.antt =====
-- The `state` table is a map: `query_state` after `update_state` and after `delete_state`.
use essential_node.Types.{ContentAddress, Key, Value}
use essential_node.Convert.{Convert, IsConvert, AreWords}
use essential_node.Blob.{blob_from_words, words_from_blob}
use essential_node.Blob.RoundTrip.{words_from_blob-blob_from_words}
use essential_node.Db.{StateRow, Database}
use essential_node.Db.Statements.{same_state, put_state, upsert_state, remove_state}
use essential_node.Db.Insert.{update_state, delete_state}
use essential_node.Db.Query.{query_state, row_words}
use essential_node.Prelude.{
  ◌≡◌, Bool, not, ◌&&◌, Option, none, some, List, [], ◌∷◌, arith, if◌then◌else◌, select, find,
  Bytes, bytes_eq, inl, inr, Bool-cases, bytes_eq_iff, refl, ap, ◌∙◌, true, false,
}

-- the entry that one contract and key names is the entry that the other names
abbrev pub same_entry : Convert → ContentAddress → Key → ContentAddress → Key → Bool
same_entry c ca key ca' key' =
    bytes_eq ca ca' && bytes_eq (blob_from_words c key) (blob_from_words c key')

module _ (ca ca' : ContentAddress) (k k' v : Bytes) where
  find-put :
      (c : Convert) (rows : List StateRow)
      → row_words c (find (same_state ca' k') (put_state ca k v rows)) ≡ (
          if bytes_eq ca ca' && bytes_eq k k'
          then some (words_from_blob c v)
          else row_words c (find (same_state ca' k') rows))
  find-put c [] = ground arith
  find-put c (r ∷ rows) = elim (Bool-cases (same_state ca k r)) [
    | inl hit ↦ rw hit (
        ground (
          arith,
          hit,
          find-put c rows,
          bytes_eq_iff r.contract_ca ca,
          bytes_eq_iff r.contract_ca ca',
          bytes_eq_iff ca ca',
          bytes_eq_iff r.key k,
          bytes_eq_iff r.key k',
          bytes_eq_iff k k',
        ))
    | inr miss ↦ rw miss (
        ground (
          arith,
          miss,
          find-put c rows,
          bytes_eq_iff r.contract_ca ca,
          bytes_eq_iff r.contract_ca ca',
          bytes_eq_iff ca ca',
          bytes_eq_iff r.key k,
          bytes_eq_iff r.key k',
          bytes_eq_iff k k',
        ))
  ]

  find-remove :
      (rows : List StateRow)
      → find (same_state ca' k') (select (λ r. not (same_state ca k r)) rows)
        ≡ (if bytes_eq ca ca' && bytes_eq k k' then none else find (same_state ca' k') rows)
  find-remove [] = ground arith
  find-remove (r ∷ rows) = elim (Bool-cases (same_state ca k r)) [
    | inl hit ↦ rw hit (
        ground (
          arith,
          hit,
          find-remove rows,
          bytes_eq_iff r.contract_ca ca,
          bytes_eq_iff r.contract_ca ca',
          bytes_eq_iff ca ca',
          bytes_eq_iff r.key k,
          bytes_eq_iff r.key k',
          bytes_eq_iff k k',
        ))
    | inr miss ↦ rw miss (
        ground (
          arith,
          miss,
          find-remove rows,
          bytes_eq_iff r.contract_ca ca,
          bytes_eq_iff r.contract_ca ca',
          bytes_eq_iff ca ca',
          bytes_eq_iff r.key k,
          bytes_eq_iff r.key k',
          bytes_eq_iff k k',
        ))
  ]

module _ (c : Convert) (laws : IsConvert c) (ca ca' : ContentAddress) (key key' : Key) where
  query_state-update_state :
      (value : Value) (db : Database)
      → AreWords value
      → query_state c ca' key' (update_state c ca key value db)
        ≡ (if same_entry c ca key ca' key' then some value else query_state c ca' key' db)
  unfolding query_state update_state upsert_state
  query_state-update_state value db h =
      find-put ca ca' (blob_from_words c key) (blob_from_words c key') (blob_from_words c value) c
        db.state
      ∙ ap
          (λ w.
            if same_entry c ca key ca' key'
            then some w
            else row_words c (find (same_state ca' (blob_from_words c key')) db.state))
          (words_from_blob-blob_from_words c laws value h).0

  query_state-delete_state :
      (db : Database)
      → query_state c ca' key' (delete_state c ca key db)
        ≡ (if same_entry c ca key ca' key' then none else query_state c ca' key' db)
  unfolding query_state delete_state remove_state
  query_state-delete_state db =
      ap (row_words c)
        (find-remove ca ca' (blob_from_words c key) (blob_from_words c key') [] db.state)
      ∙ row_words-if (same_entry c ca key ca' key') _
    where
      row_words-if :
          (b : Bool) (r : Option StateRow)
          → row_words c (if b then none else r) ≡ (if b then none else row_words c r)
      row_words-if true r = refl
      row_words-if false r = refl

  -- What is read under a contract and key after a write of a value of words is the value written,
  -- and after a deletion it is nothing, where the two name one entry, and what was there before
  -- everywhere else.
  pub query_state-writes :
      (value : Value) (db : Database)
      → AreWords value
      → (query_state c ca' key' (update_state c ca key value db)
          ≡ (if same_entry c ca key ca' key' then some value else query_state c ca' key' db))
        × (query_state c ca' key' (delete_state c ca key db)
            ≡ (if same_entry c ca key ca' key' then none else query_state c ca' key' db))
  query_state-writes value db h = (query_state-update_state value db h, query_state-delete_state db)

-- ===== src/Api/Database/Batch.antt =====
-- The batches of `insertMany` and `updateMany` of api/collection.ts in the log, with a document that
-- cannot be encoded, and when all can.
use pocket_db.Prelude.{
  ◌≡◌, refl, sym, subst, List, [], ◌∷◌, ◌++◌, append-nil, append_assoc, arith, All, Error, err,
}
use pocket_db.Storage.Constants.{transaction_begin_operation, transaction_commit_operation}
use pocket_db.Storage.DocumentOperation.{encode_put_document_payload}
use pocket_db.Storage.FileStorage.{FileStorage}
use pocket_db.Storage.FileStorage.Replay.Log.{Entry, HoldsLog}
use pocket_db.Api.Host.{Host, encoder_of}
use pocket_db.Api.Cursor.{bytes_same}
use pocket_db.Api.Collection.{Collection, State, Prepared}
use pocket_db.Api.Collection.Writes.{
  append_put_document, append_all, append_transaction_begin, write_batch,
}
use pocket_db.Api.Collection.Logged.{
  IsStorable, put_operation, put_entry, append_lem, append_put_lem,
}
use pocket_db.Api.Database.Interrupted.{InnerEntry}

abbrev pub begin_entry : Entry
begin_entry = record { identifier = transaction_begin_operation; payload = [] }

abbrev pub commit_entry : Entry
commit_entry = record { identifier = transaction_commit_operation; payload = [] }

module _ (host : Host) where
  abbrev pub Storable : Collection → Prepared → Type 0
  Storable c p = IsStorable host c p.document_id p.document

  -- The records of documents that can be stored: each is the encoding of its document.
  abbrev pub put_entries :
      (c : Collection) (prepared : List Prepared) → All (Storable c) prepared → List Entry
  put_entries c [] storable = []
  put_entries c (p ∷ prepared) (d, ds) = put_entry host d.payload ∷ put_entries c prepared ds

  put_entries-InnerEntry :
      (c : Collection) (prepared : List Prepared) (storable : All (Storable c) prepared)
      → All InnerEntry (put_entries c prepared storable)
  unfolding bytes_same
  put_entries-InnerEntry c [] storable = tt
  put_entries-InnerEntry c (p ∷ prepared) (d, ds) =
      ((refl, refl), put_entries-InnerEntry c prepared ds)

  put_refused :
      (s : State) (p : Prepared) {e : Error}
      → encode_put_document_payload
          (encoder_of host)
          (put_operation host s.self p.document_id p.document)
        ≡ err e
      → append_put_document host p.document_id p.document s ≡ (err e, s)
  unfolding append_put_document
  put_refused s p refused = rw refused refl

  append_all_throws :
      (before : List Prepared) (p : Prepared) (others : List Prepared) (s : State) {es : List Entry}
      {e : Error}
      → HoldsLog s.storage es
      → (storable : All (Storable s.self) before)
      → encode_put_document_payload
          (encoder_of host)
          (put_operation host s.self p.document_id p.document)
        ≡ err e
      → (storage : FileStorage) × (append_all host (before ++ (p ∷ others)) s
          ≡ (err e, record s { storage = storage }))
        × HoldsLog storage (es ++ put_entries s.self before storable)
  unfolding append_all
  append_all_throws [] p others s {es} log storable refused = (
    s.storage,
    rw (put_refused s p refused) refl,
    subst (HoldsLog s.storage) (sym (append-nil es)) log,
  )
  append_all_throws (q ∷ before) p others s {es} log (d, ds) refused =
      let (a, written) = append_put_lem host s q.document_id q.document log d in
      let s1 = record s { storage = a.storage } in
      let (storage, threw, holds) = append_all_throws before p others s1 a.holds ds refused in
      (
        storage,
        rw (written, threw) refl,
        subst (HoldsLog storage)
            (append_assoc es (put_entry host d.payload ∷ []) (put_entries s.self before ds)) holds,
      )

  -- A batch in which the encoder refuses a document throws, and leaves the begin of its transaction
  -- in the log with no commit behind it: what follows the begin are exactly the records of the
  -- documents before the refused one, each with the encoding of its document. The collection in
  -- memory is unchanged. The documents before it can be stored: they are encoded, and decoded to the
  -- same.
  pub write_batch_throws :
      (before : List Prepared) (p : Prepared) (others : List Prepared) (s : State) {es : List Entry}
      {e : Error}
      → HoldsLog s.storage es
      → (storable : All (Storable s.self) before)
      → encode_put_document_payload
          (encoder_of host)
          (put_operation host s.self p.document_id p.document)
        ≡ err e
      → (s' : State) × (write_batch host (before ++ (p ∷ others)) s ≡ (err e, s'))
        × (s'.self ≡ s.self)
        × HoldsLog s'.storage (es ++ (begin_entry ∷ put_entries s.self before storable))
        × All InnerEntry (put_entries s.self before storable)
  unfolding write_batch append_transaction_begin
  write_batch_throws before p others s {es} log storable refused =
      let a = append_lem host s begin_entry log (record { four = refl; width = omega arith }) in
      let s1 = record s { storage = a.storage } in
      let (storage, threw, holds) = append_all_throws before p others s1 a.holds storable refused in
      (
        record s1 { storage = storage },
        rw (a.done, threw) refl,
        refl,
        subst (HoldsLog storage)
            (append_assoc es (begin_entry ∷ []) (put_entries s.self before storable)) holds,
        put_entries-InnerEntry s.self before storable,
      )

-- ===== src/Api/Database/Compaction/Kept.antt =====
-- What `compact` of api/database.ts leaves in the file.
use pocket_db.Prelude.{
  ℕ, zero, suc, ◌+◌, ◌-◌, ◌≤◌, ◌≡◌, refl, sym, ap, ◌∙◌, subst, inl, inr, true, false, List, [], ◌∷◌,
  ◌++◌, append-nil, append_assoc, arith, ap₂, ltb, leb, if◌then◌else◌, ltb→le, le→leb, Bool-cases,
  Option-cases, length, get_elem?, take, drop, replicate, All, length-append, length-drop,
  take-append_length, drop-append_length, drop-drop, length-zero, Result, ok-injective,
  Result-cases, ok, err,
}
use pocket_db.Search.Values.{Text}
use pocket_db.Storage.Buffers.{Buffer}
use pocket_db.Storage.OperationRecord.RoundTrip.{length-frame}
use pocket_db.Storage.Os.Exact.{read_exact_lem}
use pocket_db.Storage.Os.Written.{write_all_lem}
use pocket_db.Storage.FileStorage.{FileStorage, read_raw_bytes, write_raw_at, truncate_to}
use pocket_db.Storage.FileStorage.Replay.Log.{
  Entry, IsWritableEntry, HoldsLog, frame_of, frames, stored, stored_from, read_operations-frames,
}
use pocket_db.Api.Host.{Host}
use pocket_db.Api.Actions.{follow}
use pocket_db.Api.Database.{Database}
use pocket_db.Api.Database.Compaction.{
  Opened, should_keep_operation, move_entry, move_record, compact_loop, refresh_at, refresh_all,
  compact,
}

drop-append_of_le :
    {A : Type 0} (n : ℕ) (xs ys : List A) → n ≤ length xs → drop n (xs ++ ys) ≡ drop n xs ++ ys
drop-append_of_le zero xs ys h = refl
drop-append_of_le (suc n) [] ys h = let impossible : ⊥ = omega (arith, h) in absurd impossible
drop-append_of_le (suc n) (x ∷ xs) ys h = drop-append_of_le n xs ys (omega (arith, h))

module _ (host : Host) where
  -- The entries that a compaction keeps, and the database after it, before its indexes are refreshed;
  -- an entry that moves is entered at its new offset.
  unfoldable pub kept_entries : Database → ℕ → ℕ → List Entry → Result (Database × List Entry)
  kept_entries db write_head scan_head [] = ok (db, [])
  kept_entries db write_head scan_head (e ∷ es) =
      let size = 8 + length e.payload + 4 in
      elim (should_keep_operation host db (stored scan_head e)) [
        | err x ↦ err x
        | ok false ↦ kept_entries db write_head (scan_head + size) es
        | ok true ↦
            elim (if ltb write_head scan_head
              then move_entry host db (stored scan_head e) write_head
              else ok db) [
                | err x ↦ err x
                | ok db' ↦ elim (kept_entries db' (write_head + size) (scan_head + size) es) [
                  | err x ↦ err x
                  | ok (db'', kept) ↦ ok (db'', e ∷ kept)
                ]
              ]
      ]

  -- The move of a record that stands behind a gap.
  move_lem :
      (s : FileStorage) (front gap part rest : Buffer)
      → s.file ≡ front ++ (gap ++ (part ++ rest))
      → (s' : FileStorage) × (gap' : Buffer) × (read_raw_bytes host.os s
            (length front + length gap)
            (length part)
          ≡ ok part)
        × (write_raw_at host.os s (length front) part ≡ ok s')
        × (s'.file ≡ (front ++ part) ++ (gap' ++ rest))
        × (length gap' ≡ length gap)
  unfolding read_raw_bytes write_raw_at
  move_lem s front gap part rest content =
      let file = s.file in
      let long : length file ≡ length front + (length gap + (length part + length rest)) =
        ap length content
        ∙ omega (
          arith,
          length-append {0} front (gap ++ (part ++ rest)),
          length-append {0} gap (part ++ rest),
          length-append {0} part rest,
        ) in
      let fits : leb (length part) (length file - (length front + length gap)) ≡ true =
        le→leb _ _ (omega (arith, long)) in
      let found : take (length part) (drop (length front + length gap) file) ≡ part =
        ap₂ (λ (n : ℕ) (f : Buffer). take (length part) (drop n f)) (sym (length-append front gap))
          (content ∙ sym (append_assoc front gap (part ++ rest)))
        ∙ ap (take (length part)) (drop-append_length (front ++ gap) (part ++ rest))
        ∙ take-append_length part rest in
      let behind : drop (length front + length part) file
          ≡ drop (length part) (gap ++ part) ++ rest =
        ap (drop (length front + length part)) content
        ∙ sym (drop-drop (length front) (length part) (front ++ (gap ++ (part ++ rest))))
        ∙ ap (drop (length part)) (drop-append_length front (gap ++ (part ++ rest)))
        ∙ ap (drop (length part)) (sym (append_assoc gap part rest))
        ∙ drop-append_of_le (length part) (gap ++ part) rest
            (omega (arith, length-append {0} gap part)) in
      let kept : take (length front) file ≡ front =
        ap (take (length front)) content ∙ take-append_length front (gap ++ (part ++ rest)) in
      let gap' = drop (length part) (gap ++ part) in
      let file' = take (length front) file ++ (part ++ drop (length front + length part) file) in
      (
        record s { file = file' },
        gap',
        read_exact_lem host.os file (length part) (length front + length gap)
            ∙ rw (fits, found) refl,
        rw (write_all_lem host.os file part (length front) (omega (arith, long))) refl,
        ap₂ (λ (a b : Buffer). a ++ (part ++ b)) kept behind
            ∙ sym (append_assoc front part (gap' ++ rest)),
        omega (arith, length-drop (length part) (gap ++ part), length-append {0} gap part),
      )

  abbrev counted : FileStorage → Database → ℕ → Result ℕ × Opened
  counted storage db n = (ok n, record { storage = storage; database = db })

  -- What the loop of `compact` has come to.
  record Compacted (front : Buffer) (done : Result ℕ × Opened) (r : Database × List Entry)
      : Type 0 where
    storage : FileStorage
    tail : Buffer
    result :
        done
        ≡ (ok (length front + length (frames r.1)), record { storage = storage; database = r.0 })
    content : storage.file ≡ front ++ (frames r.1 ++ tail)
    written : All IsWritableEntry r.1

  -- One more entry that is kept.
  Compacted-more :
      (front : Buffer) (e : Entry) {done done' : Result ℕ × Opened} {r : Database × List Entry}
      → IsWritableEntry e
      → done ≡ done'
      → Compacted (front ++ frame_of e) done' r
      → Compacted front done (r.0, e ∷ r.1)
  Compacted-more front e {r = r} w p c = record {
    storage = c.storage;
    tail = c.tail;
    result =
        let sum : length (front ++ frame_of e) + length (frames r.1)
            ≡ length front + length (frame_of e ++ frames r.1) =
          omega (
            arith,
            length-append {0} front (frame_of e),
            length-append {0} (frame_of e) (frames r.1),
          ) in
        p ∙ c.result ∙ ap (counted c.storage r.0) sum;
    content =
        c.content
        ∙ append_assoc front (frame_of e) (frames r.1 ++ c.tail)
        ∙ ap (λ (l : Buffer). front ++ l) (sym (append_assoc (frame_of e) (frames r.1) c.tail));
    written = (w, c.written);
  }

  -- What is kept behind an entry that is kept.
  kept_first :
      (db : Database) (e : Entry) (es : List Entry) (write_head scan_head : ℕ)
      {r : Database × List Entry}
      → (elim (kept_entries db write_head scan_head es) [
        | err x ↦ err x
        | ok (db', kept) ↦ ok (db', e ∷ kept)
      ])
        ≡ ok r
      → (r1 : Database × List Entry) × (kept_entries db write_head scan_head es ≡ ok r1)
        × ((r1.0, e ∷ r1.1) ≡ r)
  kept_first db e es write_head scan_head h =
      elim (Result-cases (kept_entries db write_head scan_head es)) [
        | inl (r1, p) ↦ (r1, p, ok-injective (sym (ap choose p) ∙ h))
        | inr (x, p) ↦ absurd (cc (ap choose p, h))
      ]
    where
      choose : Result (Database × List Entry) → Result (Database × List Entry)
      choose o = elim o [ err x ↦ err x | ok (db', kept) ↦ ok (db', e ∷ kept) ]

  compact_loop_lem :
      (es : List Entry) (front gap : Buffer) (write_head scan_head : ℕ) (s : FileStorage)
      (db : Database) {r : Database × List Entry}
      → All IsWritableEntry es
      → length front ≡ write_head
      → length front + length gap ≡ scan_head
      → s.file ≡ front ++ (gap ++ frames es)
      → kept_entries db write_head scan_head es ≡ ok r
      → Compacted front
          (compact_loop host
            (stored_from scan_head es)
            write_head
            (record { storage = s; database = db }))
          r
  unfolding kept_entries compact_loop move_record
  compact_loop_lem [] front gap write_head scan_head s db w at_write at_scan content h =
      subst (Compacted front (ok write_head, record { storage = s; database = db }))
        (ok-injective h)
        (record {
          storage = s;
          tail = gap ++ [];
          result =
              let same : write_head ≡ length front + 0 = omega (arith, at_write) in
              ap (counted s db) same;
          content = content;
          written = tt;
        })
  compact_loop_lem (e ∷ es) front gap write_head scan_head s db {r} (w, ws) at_write at_scan content
        h =
      let size = 8 + length e.payload + 4 in
      let long : length (frame_of e) ≡ size =
        omega (arith, length-frame e.identifier e.payload w) in
      let operation = stored scan_head e in
      let grown : length (front ++ frame_of e) ≡ write_head + size =
        omega (arith, length-append {0} front (frame_of e), long, at_write) in
      elim (Result-cases (should_keep_operation host db operation)) [
        | inr (x, p) ↦
            let threw : kept_entries db write_head scan_head (e ∷ es) ≡ err x =
              rw (kept_entries, p) refl in
            absurd (cc (threw, h))
        | inl (false, p) ↦
            let passed : kept_entries db write_head scan_head (e ∷ es)
                ≡ kept_entries db write_head (scan_head + size) es =
              rw (kept_entries, p) refl in
            subst (λ (d : Result ℕ × Opened). Compacted front d r) (sym (rw (compact_loop, p) refl))
              (compact_loop_lem es front (gap ++ frame_of e) write_head (scan_head + size) s db ws
                at_write (omega (arith, length-append {0} gap (frame_of e), long, at_scan))
                (content
                  ∙ ap (λ (l : Buffer). front ++ l)
                      (sym (append_assoc gap (frame_of e) (frames es))))
                (sym passed ∙ h))
        | inl (true, p) ↦ elim (Bool-cases (ltb write_head scan_head)) [
          | inl lt ↦
              let (s', gap', read, wrote, content', same_gap) =
                move_lem s front gap (frame_of e) (frames es) content in
              let read' : read_raw_bytes host.os s scan_head size ≡ ok (frame_of e) =
                ap₂ (λ (a b : ℕ). read_raw_bytes host.os s a b) (sym at_scan) (sym long) ∙ read in
              let wrote' : write_raw_at host.os s write_head (frame_of e) ≡ ok s' =
                ap (λ (n : ℕ). write_raw_at host.os s n (frame_of e)) (sym at_write) ∙ wrote in
              elim (Result-cases (move_entry host db operation write_head)) [
                | inr (x, q) ↦
                    let threw : kept_entries db write_head scan_head (e ∷ es) ≡ err x =
                      rw (kept_entries, p, lt, q) refl in
                    absurd (cc (threw, h))
                | inl (db1, q) ↦
                    let (r1, rest, same) =
                      kept_first db1 e es (write_head + size) (scan_head + size)
                        (sym (rw (kept_entries, p, lt, q) refl) ∙ h) in
                    subst
                      (Compacted front (
                        compact_loop host (stored_from scan_head (e ∷ es)) write_head
                          (record { storage = s; database = db })))
                      same
                      (Compacted-more front e w
                        (rw (compact_loop, p, move_record, lt, read', wrote', q) refl)
                        (compact_loop_lem es (front ++ frame_of e) gap' (write_head + size)
                          (scan_head + size) s' db1 ws grown
                          (omega (arith, grown, same_gap, at_write, at_scan)) content' rest))
              ]
          | inr ge ↦
              let nothing : gap ≡ [] =
                length-zero gap (omega (arith, at_write, at_scan, ltb→le _ _ ge)) in
              let (r1, rest, same) =
                kept_first db e es (write_head + size) (scan_head + size)
                  (sym (rw (kept_entries, p, ge) refl) ∙ h) in
              subst
                (Compacted front (
                  compact_loop host (stored_from scan_head (e ∷ es)) write_head
                    (record { storage = s; database = db })))
                same
                (Compacted-more front e w (rw (compact_loop, p, move_record, ge) refl) (
                  compact_loop_lem es (front ++ frame_of e) [] (write_head + size)
                    (scan_head + size) s db ws grown
                    (omega (arith, grown, at_write, at_scan, ltb→le _ _ ge, ap length nothing))
                    (content
                      ∙ ap (λ (g : Buffer). front ++ (g ++ (frame_of e ++ frames es))) nothing
                      ∙ sym (append_assoc front (frame_of e) (frames es)))
                    rest))
        ]
      ]

  refresh_at-storage : (place : ℕ) (o : Opened) → (refresh_at host place o).1.storage ≡ o.storage
  unfolding refresh_at
  refresh_at-storage place o = elim (Option-cases (get_elem? o.database.objects place)) [
    | inl p ↦ rw (refresh_at, p) refl
    | inr (c, p) ↦ rw (refresh_at, p) refl
  ]

  refresh_all-storage :
      (places : List (Text × ℕ)) (o : Opened) → (refresh_all host places o).1.storage ≡ o.storage
  unfolding refresh_all
  refresh_all-storage [] o = refl
  refresh_all-storage ((id, place) ∷ places) o =
      go (refresh_at host place o) refl (λ o'. refresh_all-storage places o')
    where
      then_others : Result (Unit {0}) × Opened → Result (Unit {0}) × Opened
      then_others done = follow (λ _. refresh_all host places) done

      go :
          (done : Result (Unit {0}) × Opened)
          → refresh_at host place o ≡ done
          → ((o' : Opened) → (refresh_all host places o').1.storage ≡ o'.storage)
          → (then_others (refresh_at host place o)).1.storage ≡ o.storage
      go (ok done, o') p others =
          ap (λ (d : Result (Unit {0}) × Opened). (then_others d).1.storage) p
          ∙ others o'
          ∙ ap (λ (d : Result (Unit {0}) × Opened). d.1.storage) (sym p)
          ∙ refresh_at-storage place o
      go (err x, o') p others =
          ap (λ (d : Result (Unit {0}) × Opened). (then_others d).1.storage) p
          ∙ ap (λ (d : Result (Unit {0}) × Opened). d.1.storage) (sym p)
          ∙ refresh_at-storage place o

  -- A compaction leaves a log of exactly the entries that it keeps, in their order.
  pub compact-HoldsLog :
      (o : Opened) {es : List Entry} {r : Database × List Entry}
      → HoldsLog o.storage es
      → kept_entries o.database 12 12 es ≡ ok r
      → HoldsLog (compact host o).1.storage r.1
  unfolding compact truncate_to
  compact-HoldsLog o {es} {r} log keeps =
      let loop =
        compact_loop_lem es log.header [] 12 12 o.storage o.database log.written log.header_size
          (omega (arith, log.header_size)) log.content keeps in
      let n = length log.header + length (frames r.1) in
      let s' = truncate_to loop.storage n in
      let reading = read_operations-frames host.os host.chunk_bytes log in
      let left : (compact host o).1.storage ≡ s' =
        rw (compact, reading, loop.result)
          (refresh_all-storage r.0.collections_by_id (record { storage = s'; database = r.0 })) in
      let whole = log.header ++ frames r.1 in
      let size : length whole ≡ n = length-append log.header (frames r.1) in
      let shape : loop.storage.file ≡ whole ++ loop.tail =
        loop.content ∙ sym (append_assoc log.header (frames r.1) loop.tail) in
      let enough : n - length loop.storage.file ≡ 0 =
        omega (arith, ap length shape, size, length-append {0} whole loop.tail) in
      let kept : take n loop.storage.file ≡ whole =
        ap₂ (λ (k : ℕ) (f : Buffer). take k f) (sym size) shape
        ∙ take-append_length whole loop.tail in
      let content : s'.file ≡ whole =
        ap₂ (λ (a : Buffer) (k : ℕ). a ++ replicate k 0) kept enough ∙ append-nil whole in
      subst (λ (s : FileStorage). HoldsLog s r.1) (sym left)
        (record {
          header = log.header;
          header_size = log.header_size;
          written = loop.written;
          content = content;
          offset = sym (ap length content ∙ size);
        })

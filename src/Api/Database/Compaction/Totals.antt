-- ===== src/Api/Database/Compaction/Totals.antt =====
-- The counts of `stats` in api/database.ts, and what `compact` reclaims.
use pocket_db.Prelude.{
  ℕ, suc, ◌+◌, ◌≤◌, ◌≡◌, refl, sym, ◌∙◌, inl, inr, Bool, true, false, List, [], ◌∷◌, arith, length,
  Result-cases, ok, err,
}
use pocket_db.Search.Values.{Text}
use pocket_db.Storage.OperationRecord.{OperationRecord}
use pocket_db.Api.Host.{Host}
use pocket_db.Api.Database.{Database}
use pocket_db.Api.Database.Compaction.{
  StorageStats, accumulate, byte_length_of, should_keep_operation, operation_collection_id,
  count_for, stats_loop,
}

-- The bytes of some records.
abbrev pub total_bytes : List OperationRecord → ℕ
total_bytes [] = 0
total_bytes (operation ∷ operations) = byte_length_of operation + total_bytes operations

module _ (host : Host) (db : Database) where
  -- The bytes of the records that `compact` keeps, by the test that it makes of each.
  abbrev pub kept_bytes : List OperationRecord → ℕ
  kept_bytes [] = 0
  kept_bytes (operation ∷ operations) =
      (elim (should_keep_operation host db operation) [
        | err e ↦ 0
        | ok true ↦ byte_length_of operation
        | ok false ↦ 0
      ])
      + kept_bytes operations

  -- The counts, by what they were before a record.
  one_more :
      (global after : StorageStats) (size n live dead : ℕ) (keep : Bool)
      → (after.operation_count ≡ (accumulate global keep size).operation_count + n)
        × (after.live_bytes ≡ (accumulate global keep size).live_bytes + live)
        × (after.live_bytes + after.dead_bytes
            ≡ (accumulate global keep size).live_bytes
              + (accumulate global keep size).dead_bytes
              + dead)
        × (after.tombstone_count + (accumulate global keep size).operation_count
            ≤ (accumulate global keep size).tombstone_count + after.operation_count)
      → (after.operation_count ≡ global.operation_count + suc n)
        × (after.live_bytes ≡ global.live_bytes + ((elim keep [ true ↦ size | false ↦ 0 ]) + live))
        × (after.live_bytes + after.dead_bytes
            ≡ global.live_bytes + global.dead_bytes + (size + dead))
        × (after.tombstone_count + global.operation_count
            ≤ global.tombstone_count + after.operation_count)
  unfolding accumulate
  one_more global after size n live dead true h = omega arith
  one_more global after size n live dead false h = omega arith

  -- The counts of a scan add up: every record is counted once, live and dead bytes are together all the
  -- bytes of the log, the live bytes are those of the records that a compaction would keep, and the
  -- tombstones are no more than the records.
  pub stats_loop_totals :
      (operations : List OperationRecord) (global : StorageStats)
      (by_collection : List (Text × StorageStats)) {after : StorageStats}
      {by_collection' : List (Text × StorageStats)}
      → stats_loop host db operations global by_collection ≡ ok (after, by_collection')
      → (after.operation_count ≡ global.operation_count + length operations)
        × (after.live_bytes ≡ global.live_bytes + kept_bytes operations)
        × (after.live_bytes + after.dead_bytes
            ≡ global.live_bytes + global.dead_bytes + total_bytes operations)
        × (after.tombstone_count + global.operation_count
            ≤ global.tombstone_count + after.operation_count)
  unfolding stats_loop accumulate
  stats_loop_totals [] global by_collection h = ground arith
  stats_loop_totals (operation ∷ operations) global by_collection {after} {by_collection'} h =
      elim (Result-cases (should_keep_operation host db operation)) [
        | inr (e, p) ↦
            let threw : stats_loop host db (operation ∷ operations) global by_collection ≡ err e =
              rw (stats_loop, p) refl in
            absurd (cc (threw, h))
        | inl (live, p) ↦ elim (Result-cases (operation_collection_id host operation)) [
          | inr (e, q) ↦
              let threw : stats_loop host db (operation ∷ operations) global by_collection ≡ err e =
                rw (stats_loop, p, q) refl in
              absurd (cc (threw, h))
          | inl (id, q) ↦
              let size = byte_length_of operation in
              let counted = count_for host db by_collection id live size in
              let step : stats_loop host db (operation ∷ operations) global by_collection
                  ≡ stats_loop host db operations (accumulate global live size) counted =
                rw (stats_loop, p, q) refl in
              let rest =
                stats_loop_totals operations (accumulate global live size) counted (sym step ∙ h) in
              rw p (
                one_more global after size (length operations) (kept_bytes operations)
                  (total_bytes operations) live rest)
        ]
      ]

-- ===== src/Api/DocumentCache.antt =====
-- api/document-cache.ts. Documents are values here, so the copies that `structuredClone` makes are the
-- documents themselves.
pub mod Invariant
pub mod Eviction
pub mod Transparency
pub mod Entries
use pocket_db.Prelude.{
  ℕ, ◌+◌, ◌-◌, Bool, true, false, Option, none, some, List, [], ◌∷◌, ltb, ◌==◌, if◌then◌else◌,
  Result, throw_if, ◌>>=◌, ◌>>◌, Equality, lookup, delete, insert, max_bytes_positive, ok,
}
use pocket_db.Prelude.{insert}
use pocket_db.Prelude.{lookup}
use pocket_db.Prelude.{Equality}
use pocket_db.Prelude.{
  ℕ, ◌+◌, ◌-◌, Bool, true, false, Option, none, some, List, [], ◌∷◌, ltb, ◌==◌, if◌then◌else◌,
  Result, ◌>>=◌, ◌>>◌, throw_if, max_bytes_positive, ok,
}

pub record CacheEntry (Document : Type 0) : Type 0 where
  pub document : Document
  pub offset : ℕ
  pub bytes : ℕ

pub record DocumentCache (Key Document : Type 0) : Type 0 where
  pub entries : List (Key × CacheEntry Document)
  pub max_bytes : ℕ
  pub bytes : ℕ
  pub hits : ℕ
  pub misses : ℕ
  pub evictions : ℕ

-- A budget is an integer that is not negative here: it is left to check that it is positive.
unfoldable pub normalize_max_bytes : ℕ → Result ℕ
normalize_max_bytes max_bytes = do throw_if (max_bytes == 0) max_bytes_positive; ok max_bytes

module _ {Key Document : Type 0} where
  -- The constructor.
  unfoldable pub new_cache : ℕ → Result (DocumentCache Key Document)
  new_cache max_bytes = do
    budget ← normalize_max_bytes max_bytes
    ok (record { entries = []; max_bytes = budget; bytes = 0; hits = 0; misses = 0; evictions = 0 })

  -- The loop of `evictToFit`, over the entries from the oldest.
  pub evict_loop :
      ℕ → ℕ → List (Key × CacheEntry Document) → ℕ → ℕ → List (Key × CacheEntry Document) × ℕ × ℕ
  evict_loop max_bytes incoming [] bytes evictions = ([], bytes, evictions)
  evict_loop max_bytes incoming ((id, e) ∷ entries) bytes evictions =
      let rest = evict_loop max_bytes incoming entries (bytes - e.bytes) (evictions + 1) in
      if ltb max_bytes (bytes + incoming) then rest else ((id, e) ∷ entries, bytes, evictions)

  unfoldable pub evict_to_fit : DocumentCache Key Document → ℕ → DocumentCache Key Document
  unfolding evict_loop
  evict_to_fit c incoming =
      let (entries, bytes, evictions) =
        evict_loop c.max_bytes incoming c.entries c.bytes c.evictions in
      record c { entries = entries; bytes = bytes; evictions = evictions }

  unfoldable pub set_max_bytes :
      DocumentCache Key Document → ℕ → Result (DocumentCache Key Document)
  unfolding evict_to_fit
  set_max_bytes c max_bytes = do
    budget ← normalize_max_bytes max_bytes
    ok (evict_to_fit (record c { max_bytes = budget }) 0)

  unfoldable pub clear : DocumentCache Key Document → DocumentCache Key Document
  clear c = record c { entries = []; bytes = 0 }

  unfoldable pub reset_stats : DocumentCache Key Document → DocumentCache Key Document
  reset_stats c = record c { hits = 0; misses = 0; evictions = 0 }

module _ {Key Document : Type 0} (eq : Equality Key) where
  -- The new state, and the document or `undefined`.
  unfoldable pub get :
      DocumentCache Key Document → Key → ℕ → DocumentCache Key Document × Option Document
  get c id offset = elim (lookup eq id c.entries) [
    | none ↦ (record c { misses = c.misses + 1 }, none)
    | some entry ↦
        if entry.offset == offset
        then (
          record c { entries = insert eq id entry (delete eq id c.entries); hits = c.hits + 1 },
          some entry.document,
        )
        else (record c { misses = c.misses + 1 }, none)
  ]

  -- The removal of an entry that is there, as `set` and `invalidate` do it.
  pub without : DocumentCache Key Document → Key → DocumentCache Key Document
  without c id = elim (lookup eq id c.entries) [
    | none ↦ c
    | some entry ↦ record c { bytes = c.bytes - entry.bytes; entries = delete eq id c.entries }
  ]

  unfoldable pub set :
      (Document → ℕ) → DocumentCache Key Document → Key → ℕ → Document → DocumentCache Key Document
  unfolding without evict_to_fit
  set size_of c id offset document =
      let c' = without c id in
      let bytes = size_of document in
      let room = evict_to_fit c' bytes in
      if ltb c'.max_bytes bytes then c' else record room {
        entries =
            insert eq id (record { document = document; offset = offset; bytes = bytes })
              room.entries;
        bytes = room.bytes + bytes;
      }

  unfoldable pub invalidate : DocumentCache Key Document → Key → DocumentCache Key Document × Bool
  unfolding without
  invalidate c id = elim (lookup eq id c.entries) [
    | none ↦ (c, false)
    | some entry ↦ (without c id, true)
  ]

-- ===== src/Tests/Caches.antt =====
-- The theorems on the document cache at concrete inputs.
use pocket_db.Prelude.{
  ℕ, ◌+◌, ◌≤◌, ◌<◌, ◌≡◌, refl, ◌≢◌, ◌⊎◌, none, some, List, [], ◌∷◌, ◌++◌, arith, ◌==◌,
  if◌then◌else◌, length, replicate, delete, ok,
}
use pocket_db.Search.Values.{Text, text_equality}
use pocket_db.Api.DocumentCache.{
  CacheEntry, DocumentCache, new_cache, get, set, normalize_max_bytes,
}
use pocket_db.Api.DocumentCache.Invariant.{
  IsValid, Reachable, created, stepped, stored, Reachable-IsValid, total,
}
use pocket_db.Api.DocumentCache.Eviction.{set_evicts_oldest}
use pocket_db.Api.DocumentCache.Transparency.{
  get-set, History, started, called, get_transparent, IsBacked,
}

-- Documents are texts, and their size is their length.
abbrev size_of : Text → ℕ
size_of = length

abbrev empty_cache : DocumentCache Text Text
empty_cache = record { entries = []; max_bytes = 5; bytes = 0; hits = 0; misses = 0; evictions = 0 }

empty_created : new_cache {Key = Text} {Document = Text} 5 ≡ ok empty_cache
unfolding new_cache normalize_max_bytes
empty_created = refl

-- What the record at an offset holds: as many characters as the offset says.
abbrev store : Text → ℕ → Text
store id offset = replicate offset b'x'

abbrev filled : DocumentCache Text Text
filled = set text_equality size_of empty_cache (1 ∷ []) 3 (store (1 ∷ []) 3)

filled-Reachable : Reachable text_equality size_of filled
filled-Reachable =
    stepped empty_cache filled (created 5 empty_cache empty_created)
      (stored (1 ∷ []) 3 (store (1 ∷ []) 3))

Reachable-IsValid_example : IsValid text_equality size_of filled
Reachable-IsValid_example = Reachable-IsValid text_equality size_of filled-Reachable

filled-History : History text_equality size_of store filled
unfolding IsBacked
filled-History =
    called empty_cache filled (stored (1 ∷ []) 3 (store (1 ∷ []) 3))
      (started 5 empty_cache empty_created) refl

empty-IsValid : IsValid text_equality size_of empty_cache
empty-IsValid = Reachable-IsValid text_equality size_of (created 5 empty_cache empty_created)

found : (get text_equality filled (1 ∷ []) 3).1 ≡ some (store (1 ∷ []) 3)
found =
    (get-set text_equality size_of empty_cache (1 ∷ []) 3 (store (1 ∷ []) 3) empty-IsValid).0
      (omega arith) 3

get_transparent_example : store (1 ∷ []) 3 ≡ b'x' ∷ b'x' ∷ b'x' ∷ []
get_transparent_example =
    get_transparent text_equality size_of store (1 ∷ []) 3 filled-History found

get-set_example :
    (3 ≤ 5
      → (o : ℕ)
      → (get text_equality filled (1 ∷ []) o).1
        ≡ (if 3 == o then some (store (1 ∷ []) 3) else none))
    × (5 < 3 → (o : ℕ) → (get text_equality filled (1 ∷ []) o).1 ≡ none)
    × ((id' : Text) (o : ℕ)
        → id' ≢ 1 ∷ []
        → ((get text_equality filled id' o).1 ≡ none)
          ⊎ ((get text_equality filled id' o).1 ≡ (get text_equality empty_cache id' o).1))
get-set_example =
    get-set text_equality size_of empty_cache (1 ∷ []) 3 (store (1 ∷ []) 3) empty-IsValid

set_evicts_oldest_example :
    (old : List (Text × CacheEntry Text)) × (kept : List (Text × CacheEntry Text)) × (delete
        text_equality
        (2 ∷ [])
        filled.entries
      ≡ old ++ kept)
    × ((set text_equality size_of filled (2 ∷ []) 4 (store [] 4)).entries
        ≡ kept ++ ((2 ∷ [], record { document = store [] 4; offset = 4; bytes = 4 }) ∷ []))
    × ((old ≡ [])
        ⊎ ((older : List (Text × CacheEntry Text)) × (last : Text × CacheEntry Text) × (old
              ≡ older ++ (last ∷ []))
            × (filled.max_bytes < last.1.bytes + total kept + 4)))
unfolding set
set_evicts_oldest_example =
    set_evicts_oldest text_equality size_of filled (2 ∷ []) 4 (store [] 4)
      (Reachable-IsValid text_equality size_of filled-Reachable) fits
  where
    fits : 4 ≤ filled.max_bytes
    fits = omega arith

-- ===== src/Api/DocumentCache/Entries.antt =====
-- What holds of every entry of a cache of api/document-cache.ts holds of them still after a call.
use pocket_db.Prelude.{
  ℕ, ◌+◌, ◌-◌, ◌≡◌, inl, inr, some, List, [], ◌∷◌, ltb, ◌==◌, ==_iff, Bool-cases, Option-cases, All,
  none-some, lookup, delete, lookup-All, All-delete, All-insert, some-injective,
}
use pocket_db.Search.Values.{Text, text_equality}
use pocket_db.Api.DocumentCache.{CacheEntry, DocumentCache, evict_loop, get, without, set}

module _ {Document : Type 0} (P : Text × CacheEntry Document → Type 0) where
  pub All-get :
      (cache : DocumentCache Text Document) (id : Text) (offset : ℕ)
      → All P cache.entries
      → All P (get text_equality cache id offset).0.entries
        × ((d : Document)
            → (get text_equality cache id offset).1 ≡ some d
            → (entry : CacheEntry Document) × P (id, entry)
              × (entry.offset ≡ offset)
              × (entry.document ≡ d))
  unfolding get
  All-get cache id offset all = elim (Option-cases (lookup text_equality id cache.entries)) [
    | inl p ↦ rw (get, p) (all, λ d h. absurd (none-some h))
    | inr (entry, p) ↦
        let here = lookup-All text_equality P id cache.entries all p in
        elim (Bool-cases (entry.offset == offset)) [
          | inr e ↦ rw (get, p, e) (all, λ d h. absurd (none-some h))
          | inl e ↦
              rw (get, p, e)
                (
                  All-insert text_equality P id entry (delete text_equality id cache.entries)
                      (All-delete text_equality P id cache.entries all) here,
                  λ d h. (entry, here, (==_iff entry.offset offset).0 e, some-injective _ _ h),
                )
        ]
  ]

  All-evict_loop :
      (max_bytes incoming : ℕ) (entries : List (Text × CacheEntry Document)) (bytes evictions : ℕ)
      → All P entries
      → All P (evict_loop max_bytes incoming entries bytes evictions).0
  unfolding evict_loop
  All-evict_loop max_bytes incoming [] bytes evictions all = tt
  All-evict_loop max_bytes incoming ((id, e) ∷ entries) bytes evictions all =
      elim (Bool-cases (ltb max_bytes (bytes + incoming))) [
        | inl over ↦
            rw over
              (All-evict_loop max_bytes incoming entries (bytes - e.bytes) (evictions + 1) all.1)
        | inr fits ↦ rw fits all
      ]

  All-without :
      (cache : DocumentCache Text Document) (id : Text)
      → All P cache.entries
      → All P (without text_equality cache id).entries
  unfolding without
  All-without cache id all = elim (Option-cases (lookup text_equality id cache.entries)) [
    | inl p ↦ rw (without, p) all
    | inr (entry, p) ↦ rw (without, p) (All-delete text_equality P id cache.entries all)
  ]

  pub All-set :
      (size_of : Document → ℕ) (cache : DocumentCache Text Document) (id : Text) (offset : ℕ)
      (document : Document)
      → All P cache.entries
      → ((bytes : ℕ) → P (id, record { document = document; offset = offset; bytes = bytes }))
      → All P (set text_equality size_of cache id offset document).entries
  unfolding set
  All-set size_of cache id offset document all new =
      let left = without text_equality cache id in
      let bytes = size_of document in
      elim (Bool-cases (ltb left.max_bytes bytes)) [
        | inl e ↦ rw (set, e) (All-without cache id all)
        | inr e ↦
            rw (set, e)
              (All-insert text_equality P id _ _
                (All-evict_loop left.max_bytes bytes left.entries left.bytes left.evictions
                  (All-without cache id all))
                (new bytes))
      ]

-- ===== src/Api/DocumentCache/Eviction.antt =====
-- The order of eviction: the least recently used document first, and no more than needed.
use pocket_db.Prelude.{
  ℕ, ◌+◌, ◌≤◌, ◌<◌, ◌≡◌, refl, sym, ap, ◌∙◌, ◌⊎◌, inl, inr, Option, none, some, List, [], ◌∷◌, ◌++◌,
  arith, Option-cases, Equality, lookup, delete, lookup-delete_same, delete_of_none, insert_of_none,
  lookup-append_none,
}
use pocket_db.Api.DocumentCache.{CacheEntry, DocumentCache, evict_to_fit, get, without, set}
use pocket_db.Api.DocumentCache.Invariant.{
  IsValid, IsValid-without, evict_to_fit-Evicted, without-none, without-some, total, get_hit,
}
use pocket_db.Api.DocumentCache.Transparency.{set_entries}

module _ {Key Document : Type 0} (eq : Equality Key) (size_of : Document → ℕ) where
  entries-without :
      (c : DocumentCache Key Document) (id : Key)
      → (without eq c id).entries ≡ delete eq id c.entries
  entries-without c id = elim (Option-cases (lookup eq id c.entries)) [
    | inl h ↦ rw (without-none eq size_of c id h) (sym (delete_of_none eq id c.entries h))
    | inr (e, h) ↦ rw (without-some eq size_of c id h) refl
  ]

  -- A hit makes the document the most recently used one.
  pub get_recent :
      (c : DocumentCache Key Document) (id : Key) (offset : ℕ) {e : CacheEntry Document}
      → lookup eq id c.entries ≡ some e
      → e.offset ≡ offset
      → (get eq c id offset).0.entries ≡ delete eq id c.entries ++ ((id, e) ∷ [])
  get_recent c id offset {e} h same =
      ap (λ (r : DocumentCache Key Document × Option Document). r.0.entries)
        (get_hit eq size_of c id offset h same)
      ∙ insert_of_none eq id e (delete eq id c.entries) (lookup-delete_same eq id c.entries)

  -- `set` of a document that fits the budget makes it the most recently used one, behind the others in
  -- their order less some of the least recently used; if any of these is dropped, then with the last
  -- dropped the budget would be exceeded.
  pub set_evicts_oldest :
      (c : DocumentCache Key Document) (id : Key) (offset : ℕ) (d : Document)
      → IsValid eq size_of c
      → size_of d ≤ c.max_bytes
      → (old : List (Key × CacheEntry Document)) × (kept : List (Key × CacheEntry Document))
        × (delete eq id c.entries ≡ old ++ kept)
        × ((set eq size_of c id offset d).entries
            ≡ kept ++ ((id, record { document = d; offset = offset; bytes = size_of d }) ∷ []))
        × ((old ≡ [])
            ⊎ ((older : List (Key × CacheEntry Document)) × (last : Key × CacheEntry Document)
                × (old ≡ older ++ (last ∷ []))
                × (c.max_bytes < last.1.bytes + total kept + size_of d)))
  set_evicts_oldest c id offset d v fits =
      let c' = without eq c id in
      let (v', gone, same) = IsValid-without eq size_of c id v in
      let e = evict_to_fit-Evicted c' (size_of d) v'.counted in
      let kept = (evict_to_fit c' (size_of d)).entries in
      let entry : CacheEntry Document = record {
        document = d;
        offset = offset;
        bytes = size_of d;
      } in
      let absent : lookup eq id kept ≡ none =
        lookup-append_none eq id e.old kept (sym (ap (lookup eq id) e.split) ∙ gone) in
      (
        e.old,
        kept,
        sym (entries-without c id) ∙ e.split,
        set_entries eq size_of c id offset d v fits ∙ insert_of_none eq id entry kept absent,
        elim e.needed [
          | inl none_old ↦ inl none_old
          | inr (older, last, p, q) ↦ inr (older, last, p, omega (arith, q, same))
        ],
      )

-- ===== src/Api/DocumentCache/Transparency.antt =====
-- What `get` gives back.
use pocket_db.Prelude.{
  ℕ, ◌≤◌, ◌<◌, ◌≡◌, refl, sym, ap, ◌∙◌, subst, ◌≢◌, ◌⊎◌, inl, inr, Bool, true, false, Option, none,
  some, List, arith, dec_le, ℕ_discrete, ltb, ◌==◌, if◌then◌else◌, lt→ltb, le→ltb, ==_iff,
  Bool-cases, Option-cases, All, All-suffix, Equality, none-some, lookup, delete, insert, Distinct,
  lookup-delete_other, lookup-insert_same, lookup-insert_other, lookup-suffix, lookup-All,
  All-delete, All-insert, ok, some-injective,
}
use pocket_db.Api.DocumentCache.{
  CacheEntry, DocumentCache, normalize_max_bytes, new_cache, evict_to_fit, set_max_bytes, clear,
  reset_stats, get, without, set, invalidate,
}
use pocket_db.Api.DocumentCache.Invariant.{
  IsValid, IsValid-without, Reachable, created, stepped, Reachable-IsValid, Step, got, stored,
  invalidated, cleared, reset, resized, evict_to_fit-Evicted, without-none, without-some, get-none,
  get_stale, get_hit, made, resized_to,
}

-- What `get` finds at an offset, from the entry of the key.
abbrev at_offset : {Document : Type 0} → ℕ → Option (CacheEntry Document) → Option Document
at_offset offset none = none
at_offset offset (some e) = if e.offset == offset then some e.document else none

found_at :
    {Document : Type 0} (offset : ℕ) (e : CacheEntry Document) {d : Document}
    → at_offset offset (some e) ≡ some d
    → (e.offset ≡ offset) × (e.document ≡ d)
found_at offset e {d} h = elim (Bool-cases (e.offset == offset)) [
  | inl p ↦ (
    (==_iff e.offset offset).0 p,
    some-injective _ _ (sym (ap (λ (b : Bool). if b then some e.document else none) p) ∙ h),
  )
  | inr p ↦ absurd (none-some (sym (ap (λ (b : Bool). if b then some e.document else none) p) ∙ h))
]

module _ {Key Document : Type 0} (eq : Equality Key) where
  pub get-at_offset :
      (c : DocumentCache Key Document) (id : Key) (offset : ℕ)
      → (get eq c id offset).1 ≡ at_offset offset (lookup eq id c.entries)
  unfolding get
  get-at_offset c id offset = elim (Option-cases (lookup eq id c.entries)) [
    | inl h ↦ rw (get, h) refl
    | inr (e, h) ↦ elim (Bool-cases (e.offset == offset)) [
      | inl p ↦ rw (get, h, p) refl
      | inr p ↦ rw (get, h, p) refl
    ]
  ]

  module _ (size_of : Document → ℕ) where
    lookup-without_other :
        (c : DocumentCache Key Document) (id id' : Key)
        → id' ≢ id
        → lookup eq id' (without eq c id).entries ≡ lookup eq id' c.entries
    lookup-without_other c id id' h = elim (Option-cases (lookup eq id c.entries)) [
      | inl p ↦
          ap (λ (t : DocumentCache Key Document). lookup eq id' t.entries)
            (without-none eq size_of c id p)
      | inr (e, p) ↦
          ap (λ (t : DocumentCache Key Document). lookup eq id' t.entries)
            (without-some eq size_of c id p)
          ∙ lookup-delete_other eq id' id c.entries h
    ]

    -- An entry survives an eviction as it is, or is gone.
    lookup-evict :
        (c : DocumentCache Key Document) (incoming : ℕ) (id : Key)
        → IsValid eq size_of c
        → (lookup eq id (evict_to_fit c incoming).entries ≡ none)
          ⊎ (lookup eq id (evict_to_fit c incoming).entries ≡ lookup eq id c.entries)
    lookup-evict c incoming id v =
        let e = evict_to_fit-Evicted c incoming v.counted in
        let kept = (evict_to_fit c incoming).entries in
        let d =
          subst (λ (t : List (Key × CacheEntry Document)). Distinct eq t) e.split v.distinct in
        elim (Option-cases (lookup eq id kept)) [
          | inl gone ↦ inl gone
          | inr (x, here) ↦
              inr (here ∙ sym (ap (lookup eq id) e.split ∙ lookup-suffix eq id e.old kept d here))
        ]

    set_large :
        (c : DocumentCache Key Document) (id : Key) (offset : ℕ) (d : Document)
        → IsValid eq size_of c
        → c.max_bytes < size_of d
        → set eq size_of c id offset d ≡ without eq c id
    unfolding set
    set_large c id offset d v h =
        let (_, _, same) = IsValid-without eq size_of c id v in
        let large : ltb (without eq c id).max_bytes (size_of d) ≡ true =
          lt→ltb _ _ (omega (arith, same)) in
        rw large refl

    pub set_entries :
        (c : DocumentCache Key Document) (id : Key) (offset : ℕ) (d : Document)
        → IsValid eq size_of c
        → size_of d ≤ c.max_bytes
        → (set eq size_of c id offset d).entries
          ≡ insert eq id
              (record { document = d; offset = offset; bytes = size_of d })
              (evict_to_fit (without eq c id) (size_of d)).entries
    unfolding set
    set_entries c id offset d v h =
        let (_, _, same) = IsValid-without eq size_of c id v in
        let fits : ltb (without eq c id).max_bytes (size_of d) ≡ false =
          le→ltb _ _ (omega (arith, same)) in
        rw fits refl

    -- Of another document, what was there or nothing.
    lookup-set_other :
        (c : DocumentCache Key Document) (id : Key) (offset : ℕ) (d : Document) (id' : Key)
        → IsValid eq size_of c
        → id' ≢ id
        → (lookup eq id' (set eq size_of c id offset d).entries ≡ none)
          ⊎ (lookup eq id' (set eq size_of c id offset d).entries ≡ lookup eq id' c.entries)
    lookup-set_other c id offset d id' v other = elim (dec_le (size_of d) c.max_bytes) [
      | no large ↦ inr (
          ap (λ (t : DocumentCache Key Document). lookup eq id' t.entries)
            (set_large c id offset d v (omega (arith, large)))
          ∙ lookup-without_other c id id' other)
      | yes fits ↦
          let c' = without eq c id in
          let entry : CacheEntry Document = record {
            document = d;
            offset = offset;
            bytes = size_of d;
          } in
          let found =
            ap (lookup eq id') (set_entries c id offset d v fits)
            ∙ lookup-insert_other eq id' id entry (evict_to_fit c' (size_of d)).entries other in
          elim (lookup-evict c' (size_of d) id' (IsValid-without eq size_of c id v).0) [
            | inl gone ↦ inl (found ∙ gone)
            | inr kept ↦ inr (found ∙ kept ∙ lookup-without_other c id id' other)
          ]
    ]

    -- After `set`, the document is found at its offset and at no other, unless it is larger than the
    -- whole budget: then it is not found at all. Another document is found as before, or is evicted.
    pub get-set :
        (c : DocumentCache Key Document) (id : Key) (offset : ℕ) (d : Document)
        → IsValid eq size_of c
        → (size_of d ≤ c.max_bytes
            → (o : ℕ)
            → (get eq (set eq size_of c id offset d) id o).1
              ≡ (if offset == o then some d else none))
          × (c.max_bytes < size_of d
              → (o : ℕ) → (get eq (set eq size_of c id offset d) id o).1 ≡ none)
          × ((id' : Key) (o : ℕ)
              → id' ≢ id
              → ((get eq (set eq size_of c id offset d) id' o).1 ≡ none)
                ⊎ ((get eq (set eq size_of c id offset d) id' o).1 ≡ (get eq c id' o).1))
    get-set c id offset d v =
        let s = set eq size_of c id offset d in
        (
          λ fits o.
              let entry : CacheEntry Document = record {
                document = d;
                offset = offset;
                bytes = size_of d;
              } in
              let room = evict_to_fit (without eq c id) (size_of d) in
              get-at_offset s id o
              ∙ ap (at_offset o) (
                  ap (lookup eq id) (set_entries c id offset d v fits)
                  ∙ lookup-insert_same eq id entry room.entries),
          λ large o.
              get-at_offset s id o
              ∙ ap (at_offset o) (
                  ap (λ (t : DocumentCache Key Document). lookup eq id t.entries)
                    (set_large c id offset d v large)
                  ∙ (IsValid-without eq size_of c id v).1),
          λ id' o other. elim (lookup-set_other c id offset d id' v other) [
            | inl gone ↦ inl (get-at_offset s id' o ∙ ap (at_offset o) gone)
            | inr kept ↦
                inr (get-at_offset s id' o ∙ ap (at_offset o) kept ∙ sym (get-at_offset c id' o))
          ],
        )

    -- The calls of an engine in which the version of `id` at `offset` is the document `store id offset`.
    unfoldable pub IsBacked :
        (store : Key → ℕ → Document) {c c' : DocumentCache Key Document}
        → Step eq size_of c c'
        → Type 0
    IsBacked store (stored id offset d) = d ≡ store id offset
    IsBacked store _ = Unit

    pub data History (store : Key → ℕ → Document) : DocumentCache Key Document → Type 0 where
      started : (n : ℕ) (c : DocumentCache Key Document) → new_cache n ≡ ok c → History store c
      called :
          (c c' : DocumentCache Key Document) (s : Step eq size_of c c')
          → History store c
          → IsBacked store s
          → History store c'

    module _ (store : Key → ℕ → Document) where
      abbrev Backed : Key × CacheEntry Document → Type 0
      Backed p = p.1.document ≡ store p.0 p.1.offset

      Backed-evict :
          (c : DocumentCache Key Document) (incoming : ℕ)
          → IsValid eq size_of c
          → All Backed c.entries
          → All Backed (evict_to_fit c incoming).entries
      Backed-evict c incoming v b =
          let e = evict_to_fit-Evicted c incoming v.counted in
          All-suffix Backed e.old (evict_to_fit c incoming).entries (subst (All Backed) e.split b)

      Backed-without :
          (c : DocumentCache Key Document) (id : Key)
          → All Backed c.entries
          → All Backed (without eq c id).entries
      Backed-without c id b = elim (Option-cases (lookup eq id c.entries)) [
        | inl h ↦ rw (without-none eq size_of c id h) b
        | inr (e, h) ↦ rw (without-some eq size_of c id h) (All-delete eq Backed id c.entries b)
      ]

      Backed-get :
          (c : DocumentCache Key Document) (id : Key) (offset : ℕ)
          → All Backed c.entries
          → All Backed (get eq c id offset).0.entries
      Backed-get c id offset b = elim (Option-cases (lookup eq id c.entries)) [
        | inl h ↦ rw (get-none eq size_of c id offset h) b
        | inr (e, h) ↦ elim (ℕ_discrete e.offset offset) [
          | no other ↦ rw (get_stale eq size_of c id offset h other) b
          | yes same ↦ rw (get_hit eq size_of c id offset h same) (
              All-insert eq Backed id e (delete eq id c.entries)
                (All-delete eq Backed id c.entries b) (lookup-All eq Backed id c.entries b h))
        ]
      ]

      Backed-set :
          (c : DocumentCache Key Document) (id : Key) (offset : ℕ) (d : Document)
          → IsValid eq size_of c
          → All Backed c.entries
          → d ≡ store id offset
          → All Backed (set eq size_of c id offset d).entries
      Backed-set c id offset d v b h = elim (dec_le (size_of d) c.max_bytes) [
        | no large ↦ rw (set_large c id offset d v (omega (arith, large))) (Backed-without c id b)
        | yes fits ↦
            let v' = (IsValid-without eq size_of c id v).0 in
            rw (set_entries c id offset d v fits) (
              All-insert eq Backed id _ (evict_to_fit (without eq c id) (size_of d)).entries
                (Backed-evict (without eq c id) (size_of d) v' (Backed-without c id b)) h)
      ]

      Backed-Step :
          {c c' : DocumentCache Key Document} (s : Step eq size_of c c')
          → IsValid eq size_of c
          → IsBacked store s
          → All Backed c.entries
          → All Backed c'.entries
      unfolding IsBacked invalidate clear reset_stats set_max_bytes normalize_max_bytes
      Backed-Step {c} (got id offset) v h b = Backed-get c id offset b
      Backed-Step {c} (stored id offset d) v h b = Backed-set c id offset d v b h
      Backed-Step {c} (invalidated id) v h b = elim (Option-cases (lookup eq id c.entries)) [
        | inl p ↦ rw (invalidate, p) b
        | inr (e, p) ↦ rw (invalidate, p) (Backed-without c id b)
      ]
      Backed-Step cleared v h b = tt
      Backed-Step reset v h b = b
      Backed-Step {c} (resized n c' e) v h b = elim (ℕ_discrete n 0) [
        | yes zero_budget ↦ absurd (ground arith)
        | no positive_budget ↦
            let r = evict_to_fit-Evicted (record c { max_bytes = n }) 0 v.counted in
            let kept = (evict_to_fit (record c { max_bytes = n }) 0).entries in
            subst (λ (t : DocumentCache Key Document). All Backed t.entries)
              (resized_to eq size_of c n c' positive_budget e)
              (All-suffix Backed r.old kept (subst (All Backed) r.split b))
      ]

      History-Reachable :
          {c : DocumentCache Key Document} → History store c → Reachable eq size_of c
      History-Reachable (started n c h) = created n c h
      History-Reachable (called c c' s r h) = stepped c c' (History-Reachable r) s

      Backed-History : {c : DocumentCache Key Document} → History store c → All Backed c.entries
      unfolding new_cache normalize_max_bytes
      Backed-History (started n c h) = elim (ℕ_discrete n 0) [
        | yes zero_budget ↦ absurd (ground arith)
        | no positive_budget ↦
            subst (λ (t : DocumentCache Key Document). All Backed t.entries)
              (made eq size_of n c positive_budget h) tt
      ]
      Backed-History (called c c' s r h) =
          Backed-Step s (Reachable-IsValid eq size_of (History-Reachable r)) h (Backed-History r)

      -- If every `set` stores the document that the record at its offset holds, then whatever calls have
      -- been made before, a `get` that finds a document finds the one of the record at the offset asked
      -- for: the cache shows no stale version, and none that is newer than asked.
      pub get_transparent :
          {c : DocumentCache Key Document} (id : Key) (offset : ℕ) {d : Document}
          → History store c
          → (get eq c id offset).1 ≡ some d
          → d ≡ store id offset
      get_transparent {c} id offset {d} history found =
          elim (Option-cases (lookup eq id c.entries)) [
            | inl h ↦
                absurd
                  (none-some (sym (get-at_offset c id offset ∙ ap (at_offset offset) h) ∙ found))
            | inr (e, h) ↦
                let backed = lookup-All eq Backed id c.entries (Backed-History history) h in
                let seen = sym (get-at_offset c id offset ∙ ap (at_offset offset) h) ∙ found in
                let (same, document) = found_at offset e seen in
                sym document ∙ backed ∙ ap (store id) same
          ]

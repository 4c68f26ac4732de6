-- ===== src/Api/DocumentCache/Invariant.antt =====
-- What holds of every cache that the operations can reach.
use pocket_db.Prelude.{
  ℕ, ◌+◌, ◌-◌, ◌≤◌, ◌<◌, ◌≡◌, refl, sym, ap, ◌∙◌, subst, ◌≢◌, ◌⊎◌, inl, inr, Bool, true, false,
  none, some, List, [], ◌∷◌, ◌++◌, arith, ℕ_discrete, ltb, ◌==◌, if◌then◌else◌, ltb→lt, ltb→le,
  Bool-cases, Option-cases, length, All, All-suffix, ok-injective, Equality, none-some, lookup,
  delete, insert, Distinct, lookup-delete_same, Distinct-delete, Distinct-insert, delete_of_none,
  insert_of_none, Distinct-suffix, lookup-append_none, lookup-All, All-delete, All-insert, ok,
  some-injective,
}
use pocket_db.Api.DocumentCache.{
  CacheEntry, DocumentCache, normalize_max_bytes, new_cache, evict_loop, evict_to_fit,
  set_max_bytes, clear, reset_stats, get, without, set, invalidate,
}

-- The bytes of all entries.
abbrev pub total : {Key Document : Type 0} → List (Key × CacheEntry Document) → ℕ
total [] = 0
total ((id, e) ∷ entries) = e.bytes + total entries

-- What the loop of `evictToFit` makes of `before`: it drops entries from the oldest, as few as it can.
pub record Evicted {Key Document : Type 0} (max_bytes incoming : ℕ)
    (before : List (Key × CacheEntry Document)) (evictions : ℕ)
    (r : List (Key × CacheEntry Document) × ℕ × ℕ) : Type 0 where
  pub old : List (Key × CacheEntry Document)
  pub split : before ≡ old ++ r.0
  pub counted : r.1 ≡ total r.0
  pub count : r.2 ≡ evictions + length old
  pub fits : incoming ≤ max_bytes → r.1 + incoming ≤ max_bytes
  pub needed :
      (old ≡ [])
      ⊎ ((older : List (Key × CacheEntry Document)) × (last : Key × CacheEntry Document) × (old
            ≡ older ++ (last ∷ []))
          × (max_bytes < last.1.bytes + total r.0 + incoming))

pub total-append :
    {Key Document : Type 0} (m m' : List (Key × CacheEntry Document))
    → total (m ++ m') ≡ total m + total m'
total-append [] m' = omega arith
total-append ((id, e) ∷ m) m' = omega (arith, total-append m m')

module _ {Key Document : Type 0} where
  evict_loop_lem :
      (max_bytes incoming : ℕ) (entries : List (Key × CacheEntry Document)) (bytes evictions : ℕ)
      → bytes ≡ total entries
      → Evicted max_bytes incoming entries evictions
          (evict_loop max_bytes incoming entries bytes evictions)
  unfolding evict_loop
  evict_loop_lem max_bytes incoming [] bytes evictions h = record {
    old = [];
    split = refl;
    counted = h;
    count = omega arith;
    fits = λ room. omega (arith, h, room);
    needed = inl refl;
  }
  evict_loop_lem max_bytes incoming ((id, e) ∷ entries) bytes evictions h =
      elim (Bool-cases (ltb max_bytes (bytes + incoming))) [
        | inl full ↦ rw full (
            let r =
              evict_loop_lem max_bytes incoming entries (bytes - e.bytes) (evictions + 1)
                (omega (arith, h)) in
            record {
              old = (id, e) ∷ r.old;
              split = ap (◌∷◌ (id, e)) r.split;
              counted = r.counted;
              count = omega (arith, r.count);
              fits = r.fits;
              needed = elim r.needed [
                | inl none_older ↦ inr (
                  [],
                  (id, e),
                  ap (◌∷◌ (id, e)) none_older,
                  omega (
                    arith,
                    h,
                    ltb→lt max_bytes (bytes + incoming) full,
                    ap (λ (t : List (Key × CacheEntry Document)). total t)
                        (r.split
                          ∙ ap
                              (λ (t : List (Key × CacheEntry Document)).
                                t
                                ++ (evict_loop max_bytes incoming entries (bytes - e.bytes)
                                    (evictions + 1)).0)
                              none_older),
                  ),
                )
                | inr (older, last, p, q) ↦ inr ((id, e) ∷ older, last, ap (◌∷◌ (id, e)) p, q)
              ];
            })
        | inr room ↦ rw room (record {
          old = [];
          split = refl;
          counted = h;
          count = omega arith;
          fits = λ _. ltb→le max_bytes (bytes + incoming) room;
          needed = inl refl;
        })
      ]

  pub evict_to_fit-Evicted :
      (c : DocumentCache Key Document) (incoming : ℕ)
      → c.bytes ≡ total c.entries
      → Evicted c.max_bytes incoming c.entries c.evictions
          (let c' = evict_to_fit c incoming in (c'.entries, c'.bytes, c'.evictions))
  unfolding evict_to_fit
  evict_to_fit-Evicted c incoming h =
      evict_loop_lem c.max_bytes incoming c.entries c.bytes c.evictions h

module _ {Key Document : Type 0} (eq : Equality Key) where
  total-delete :
      (id : Key) {e : CacheEntry Document} (m : List (Key × CacheEntry Document))
      → Distinct eq m
      → lookup eq id m ≡ some e
      → total m ≡ total (delete eq id m) + e.bytes
  total-delete id [] d h = absurd (none-some h)
  total-delete id {e} ((j, w) ∷ m) d h = elim (Bool-cases (eq.same id j)) [
    | inl p ↦
        let q : w ≡ e =
          some-injective _ _
            (sym (ap (λ (b : Bool). if b then some w else lookup eq id m) p) ∙ h) in
        let gone : lookup eq id m ≡ none =
          ap (λ (i : Key). lookup eq i m) (eq.same→≡ id j p) ∙ d.0 in
        rw (p, delete_of_none eq id m gone)
          (omega (arith, ap (λ (x : CacheEntry Document). x.bytes) q))
    | inr p ↦
        let h' = sym (ap (λ (b : Bool). if b then some w else lookup eq id m) p) ∙ h in
        rw p (omega (arith, total-delete id m d.1 h'))
  ]

  total-insert_new :
      (id : Key) (e : CacheEntry Document) (m : List (Key × CacheEntry Document))
      → lookup eq id m ≡ none
      → total (insert eq id e m) ≡ total m + e.bytes
  total-insert_new id e m h =
      ap (λ (t : List (Key × CacheEntry Document)). total t) (insert_of_none eq id e m h)
      ∙ total-append m ((id, e) ∷ [])
      ∙ omega arith

  -- No document twice, the bytes counted as they are and within the budget.
  pub record IsValid (size_of : Document → ℕ) (c : DocumentCache Key Document) : Type 0 where
    pub distinct : Distinct eq c.entries
    pub counted : c.bytes ≡ total c.entries
    pub within : c.bytes ≤ c.max_bytes
    pub measured :
        All (λ (p : Key × CacheEntry Document). p.1.bytes ≡ size_of p.1.document) c.entries
    pub positive : 0 < c.max_bytes

  -- One call of an operation that changes the state.
  pub data Step (size_of : Document → ℕ) (c : DocumentCache Key Document)
      : DocumentCache Key Document → Type 0 where
    got : (id : Key) (offset : ℕ) → Step size_of c (get eq c id offset).0
    stored : (id : Key) (offset : ℕ) (d : Document) → Step size_of c (set eq size_of c id offset d)
    invalidated : (id : Key) → Step size_of c (invalidate eq c id).0
    cleared : Step size_of c (clear c)
    reset : Step size_of c (reset_stats c)
    resized :
        (n : ℕ) (c' : DocumentCache Key Document) → set_max_bytes c n ≡ ok c' → Step size_of c c'

  pub data Reachable (size_of : Document → ℕ) : DocumentCache Key Document → Type 0 where
    created : (n : ℕ) (c : DocumentCache Key Document) → new_cache n ≡ ok c → Reachable size_of c
    stepped :
        (c c' : DocumentCache Key Document)
        → Reachable size_of c
        → Step size_of c c'
        → Reachable size_of c'

  module _ (size_of : Document → ℕ) where
    IsValid-evict_to_fit :
        (c : DocumentCache Key Document) (incoming : ℕ)
        → Distinct eq c.entries
        → c.bytes ≡ total c.entries
        → All (λ (p : Key × CacheEntry Document). p.1.bytes ≡ size_of p.1.document) c.entries
        → 0 < c.max_bytes
        → incoming ≤ c.max_bytes
        → IsValid size_of (evict_to_fit c incoming)
          × ((evict_to_fit c incoming).bytes + incoming ≤ c.max_bytes)
          × ((evict_to_fit c incoming).max_bytes ≡ c.max_bytes)
    unfolding evict_to_fit
    IsValid-evict_to_fit c incoming d h m pos room =
        let e = evict_to_fit-Evicted c incoming h in
        let kept = (evict_to_fit c incoming).entries in
        (
          record {
            distinct =
                Distinct-suffix eq e.old kept
                  (subst (λ (t : List (Key × CacheEntry Document)). Distinct eq t) e.split d);
            counted = e.counted;
            within = omega (arith, e.fits room);
            measured =
                All-suffix (λ (p : Key × CacheEntry Document). p.1.bytes ≡ size_of p.1.document)
                  e.old kept
                  (subst (All (λ (p : Key × CacheEntry Document). p.1.bytes ≡ size_of p.1.document))
                    e.split m);
            positive = pos;
          },
          e.fits room,
          refl,
        )

    pub without-none :
        (c : DocumentCache Key Document) (id : Key)
        → lookup eq id c.entries ≡ none
        → without eq c id ≡ c
    unfolding without
    without-none c id h = rw (without, h) refl

    pub without-some :
        (c : DocumentCache Key Document) (id : Key) {e : CacheEntry Document}
        → lookup eq id c.entries ≡ some e
        → without eq c id ≡ record c { bytes = c.bytes - e.bytes; entries = delete eq id c.entries }
    unfolding without
    without-some c id h = rw (without, h) refl

    pub IsValid-without :
        (c : DocumentCache Key Document) (id : Key)
        → IsValid size_of c
        → IsValid size_of (without eq c id)
          × (lookup eq id (without eq c id).entries ≡ none)
          × ((without eq c id).max_bytes ≡ c.max_bytes)
    IsValid-without c id v = elim (Option-cases (lookup eq id c.entries)) [
      | inl h ↦ rw (without-none c id h) (v, h, refl)
      | inr (e, h) ↦
          let sum = total-delete id c.entries v.distinct h in
          rw (without-some c id h) (
            record {
              distinct = Distinct-delete eq id c.entries v.distinct;
              counted = omega (arith, v.counted, sum);
              within = omega (arith, v.within);
              measured =
                  All-delete eq
                    (λ (p : Key × CacheEntry Document). p.1.bytes ≡ size_of p.1.document) id
                    c.entries v.measured;
              positive = v.positive;
            },
            lookup-delete_same eq id c.entries,
            refl,
          )
    ]

    pub get-none :
        (c : DocumentCache Key Document) (id : Key) (offset : ℕ)
        → lookup eq id c.entries ≡ none
        → get eq c id offset ≡ (record c { misses = c.misses + 1 }, none)
    unfolding get
    get-none c id offset h = rw (get, h) refl

    pub get_stale :
        (c : DocumentCache Key Document) (id : Key) (offset : ℕ) {e : CacheEntry Document}
        → lookup eq id c.entries ≡ some e
        → e.offset ≢ offset
        → get eq c id offset ≡ (record c { misses = c.misses + 1 }, none)
    unfolding get
    get_stale c id offset {e} h other =
        let no_match : (e.offset == offset) ≡ false = ground arith in rw (get, h, no_match) refl

    pub get_hit :
        (c : DocumentCache Key Document) (id : Key) (offset : ℕ) {e : CacheEntry Document}
        → lookup eq id c.entries ≡ some e
        → e.offset ≡ offset
        → get eq c id offset ≡ (
          record c { entries = insert eq id e (delete eq id c.entries); hits = c.hits + 1 },
          some e.document,
        )
    unfolding get
    get_hit c id offset {e} h same =
        let match : (e.offset == offset) ≡ true = ground arith in rw (get, h, match) refl

    IsValid-missed :
        {c : DocumentCache Key Document}
        → IsValid size_of c
        → IsValid size_of (record c { misses = c.misses + 1 })
    IsValid-missed v = record {
      distinct = v.distinct;
      counted = v.counted;
      within = v.within;
      measured = v.measured;
      positive = v.positive;
    }

    IsValid-get :
        (c : DocumentCache Key Document) (id : Key) (offset : ℕ)
        → IsValid size_of c
        → IsValid size_of (get eq c id offset).0
    IsValid-get c id offset v = elim (Option-cases (lookup eq id c.entries)) [
      | inl h ↦ rw (get-none c id offset h) (IsValid-missed v)
      | inr (e, h) ↦ elim (ℕ_discrete e.offset offset) [
        | no other ↦ rw (get_stale c id offset h other) (IsValid-missed v)
        | yes same ↦
            let others = delete eq id c.entries in
            let gone = lookup-delete_same eq id c.entries in
            rw (get_hit c id offset h same) (record {
              distinct =
                  Distinct-insert eq id e others (Distinct-delete eq id c.entries v.distinct);
              counted = omega (
                arith,
                v.counted,
                total-delete id c.entries v.distinct h,
                total-insert_new id e others gone,
              );
              within = v.within;
              measured =
                  All-insert eq
                    (λ (p : Key × CacheEntry Document). p.1.bytes ≡ size_of p.1.document) id e
                    others
                    (All-delete eq
                      (λ (p : Key × CacheEntry Document). p.1.bytes ≡ size_of p.1.document) id
                      c.entries v.measured)
                    (lookup-All eq
                      (λ (p : Key × CacheEntry Document). p.1.bytes ≡ size_of p.1.document) id
                      c.entries v.measured h);
              positive = v.positive;
            })
      ]
    ]

    IsValid-set :
        (c : DocumentCache Key Document) (id : Key) (offset : ℕ) (d : Document)
        → IsValid size_of c
        → IsValid size_of (set eq size_of c id offset d)
    unfolding set
    IsValid-set c id offset d v =
        let (v', gone, same) = IsValid-without c id v in
        let c' = without eq c id in
        let bytes = size_of d in
        elim (Bool-cases (ltb c'.max_bytes bytes)) [
          | inl large ↦ rw large v'
          | inr fits ↦
              let le = ltb→le c'.max_bytes bytes fits in
              let (r, room, kept) =
                IsValid-evict_to_fit c' bytes v'.distinct v'.counted v'.measured v'.positive le in
              let e = evict_to_fit-Evicted c' bytes v'.counted in
              let absent : lookup eq id (evict_to_fit c' bytes).entries ≡ none =
                lookup-append_none eq id e.old (evict_to_fit c' bytes).entries
                  (sym (ap (lookup eq id) e.split) ∙ gone) in
              rw fits (record {
                distinct = Distinct-insert eq id _ (evict_to_fit c' bytes).entries r.distinct;
                counted = omega (
                  arith,
                  r.counted,
                  total-insert_new id (record { document = d; offset = offset; bytes = bytes })
                      (evict_to_fit c' bytes).entries absent,
                );
                within = omega (arith, room, kept);
                measured =
                    All-insert eq
                      (λ (p : Key × CacheEntry Document). p.1.bytes ≡ size_of p.1.document) id _
                      (evict_to_fit c' bytes).entries r.measured refl;
                positive = r.positive;
              })
        ]

    pub resized_to :
        (c : DocumentCache Key Document) (n : ℕ) (c' : DocumentCache Key Document)
        → n ≢ 0
        → set_max_bytes c n ≡ ok c'
        → evict_to_fit (record c { max_bytes = n }) 0 ≡ c'
    unfolding set_max_bytes normalize_max_bytes
    resized_to c n c' h e =
        let pos : (n == 0) ≡ false = ground arith in ok-injective (sym (rw pos refl) ∙ e)

    IsValid-Step :
        {c c' : DocumentCache Key Document}
        → IsValid size_of c
        → Step size_of c c'
        → IsValid size_of c'
    unfolding invalidate clear reset_stats set_max_bytes normalize_max_bytes
    IsValid-Step {c} v (got id offset) = IsValid-get c id offset v
    IsValid-Step {c} v (stored id offset d) = IsValid-set c id offset d v
    IsValid-Step {c} v (invalidated id) = elim (Option-cases (lookup eq id c.entries)) [
      | inl h ↦ rw (invalidate, h) v
      | inr (e, h) ↦ rw (invalidate, h) (IsValid-without c id v).0
    ]
    IsValid-Step v cleared = record {
      distinct = tt;
      counted = refl;
      within = omega arith;
      measured = tt;
      positive = v.positive;
    }
    IsValid-Step v reset = record {
      distinct = v.distinct;
      counted = v.counted;
      within = v.within;
      measured = v.measured;
      positive = v.positive;
    }
    IsValid-Step {c} v (resized n c' h) = elim (ℕ_discrete n 0) [
      | yes zero_budget ↦ absurd (ground arith)
      | no positive_budget ↦
          let (r, _, _) =
            IsValid-evict_to_fit (record c { max_bytes = n }) 0 v.distinct v.counted v.measured
              (omega (arith, positive_budget)) (omega arith) in
          subst (λ (t : DocumentCache Key Document). IsValid size_of t)
            (resized_to c n c' positive_budget h) r
    ]

    pub made :
        (n : ℕ) (c : DocumentCache Key Document)
        → n ≢ 0
        → new_cache n ≡ ok c
        → record { entries = []; max_bytes = n; bytes = 0; hits = 0; misses = 0; evictions = 0 } ≡ c
    unfolding new_cache normalize_max_bytes
    made n c h e = let pos : (n == 0) ≡ false = ground arith in ok-injective (sym (rw pos refl) ∙ e)

    IsValid-new : (n : ℕ) (c : DocumentCache Key Document) → new_cache n ≡ ok c → IsValid size_of c
    unfolding new_cache normalize_max_bytes
    IsValid-new n c h = elim (ℕ_discrete n 0) [
      | yes zero_budget ↦ absurd (ground arith)
      | no positive_budget ↦ subst (IsValid size_of) (made n c positive_budget h) (record {
        distinct = tt;
        counted = refl;
        within = omega arith;
        measured = tt;
        positive = omega (arith, positive_budget);
      })
    ]

    -- Every cache that calls of the operations can reach holds no document twice, counts the bytes of
    -- its documents as they are, and keeps within a positive budget.
    pub Reachable-IsValid :
        {c : DocumentCache Key Document} → Reachable size_of c → IsValid size_of c
    Reachable-IsValid (created n c h) = IsValid-new n c h
    Reachable-IsValid (stepped c c' r s) = IsValid-Step (Reachable-IsValid r) s

-- ===== src/Indexes/NumberIndex/Sorted.antt =====
-- The binary search of `insertSorted`.
use pocket_db.Prelude.{
  ℕ, zero, suc, ◌+◌, ◌/◌, ◌≤◌, ◌<◌, ◌≡◌, refl, ap, ◌∙◌, subst, ◌≢◌, true, false, List, [], ◌∷◌,
  ◌++◌, arith, dec_lt, ℕ_discrete, ltb, lt→ltb, le→ltb, length, get_or, take, drop, ok,
}
use pocket_db.Indexes.NumberIndex.{search_loop, splice_in, insert_sorted}

-- Every value is less than those behind it.
abbrev pub Ascending : List ℕ → Type 0
Ascending values = (i j : ℕ) → i < j → j < length values → get_or values i 0 < get_or values j 0

-- Where `value` belongs among the values.
pub record IsPlace (values : List ℕ) (value low : ℕ) : Type 0 where
  pub inside : low ≤ length values
  pub less : (i : ℕ) → i < low → get_or values i 0 < value
  pub not_less : (i : ℕ) → low ≤ i → i < length values → value ≤ get_or values i 0

search_loop_lem :
    (fuel : ℕ) (values : List ℕ) (value low high : ℕ)
    → Ascending values
    → high ≤ low + fuel
    → low ≤ high
    → high ≤ length values
    → ((i : ℕ) → i < low → get_or values i 0 < value)
    → ((i : ℕ) → high ≤ i → i < length values → value ≤ get_or values i 0)
    → (place : ℕ) × (search_loop fuel values value low high ≡ ok place) × IsPlace values value place
unfolding search_loop
search_loop_lem zero values value low high asc fuel_left le size below above =
    let done : ltb low high ≡ false = le→ltb low high (omega (arith, fuel_left)) in
    (
      low,
      rw done refl,
      record {
        inside = omega (arith, le, size);
        less = below;
        not_less = λ i from to. above i (omega (arith, fuel_left, from)) to;
      },
    )
search_loop_lem (suc fuel) values value low high asc fuel_left le size below above =
    let middle = (low + high) / 2 in
    elim (dec_lt low high) [
      | no done ↦
          let stop : ltb low high ≡ false = le→ltb low high (omega (arith, done)) in
          (
            low,
            rw stop refl,
            record {
              inside = omega (arith, le, size);
              less = below;
              not_less = λ i from to. above i (omega (arith, done, from)) to;
            },
          )
      | yes more ↦
          let go : ltb low high ≡ true = lt→ltb low high more in
          elim (dec_lt (get_or values middle 0) value) [
            | yes smaller ↦
                let branch : ltb (get_or values middle 0) value ≡ true = lt→ltb _ _ smaller in
                let (place, found, is_place) =
                  search_loop_lem fuel values value (middle + 1) high asc
                    (omega (arith, fuel_left, more)) (omega (arith, more)) size
                    (λ i h. elim (dec_lt i middle) [
                      | yes before ↦
                          omega (arith, asc i middle before (omega (arith, more, size)), smaller)
                      | no at ↦
                          let e : middle ≡ i = omega (arith, h, at) in
                          subst (λ (k : ℕ). get_or values k 0 < value) e smaller
                    ])
                    above in
                (place, rw (go, branch) found, is_place)
            | no larger ↦
                let branch : ltb (get_or values middle 0) value ≡ false =
                  le→ltb _ _ (omega (arith, larger)) in
                let (place, found, is_place) =
                  search_loop_lem fuel values value low middle asc (omega (arith, fuel_left, more))
                    (omega (arith, more)) (omega (arith, more, size)) below
                    (λ i from to. elim (dec_lt middle i) [
                      | yes behind ↦ omega (arith, asc middle i behind to, larger)
                      | no at ↦
                          let e : middle ≡ i = omega (arith, from, at) in
                          subst (λ (k : ℕ). value ≤ get_or values k 0) e (omega (arith, larger))
                    ]) in
                (place, rw (go, branch) found, is_place)
          ]
    ]

module _ (value : ℕ) where
  get_or-splice_before :
      (low : ℕ) (values : List ℕ) (i : ℕ)
      → low ≤ length values
      → i < low
      → get_or (splice_in low value values) i 0 ≡ get_or values i 0
  unfolding splice_in
  get_or-splice_before zero values i h before = absurd (omega (arith, before))
  get_or-splice_before (suc low) [] i h before = absurd (omega (arith, h))
  get_or-splice_before (suc low) (x ∷ values) zero h before = refl
  get_or-splice_before (suc low) (x ∷ values) (suc i) h before =
      get_or-splice_before low values i (omega (arith, h)) (omega (arith, before))

  get_or-splice_at :
      (low : ℕ) (values : List ℕ)
      → low ≤ length values
      → get_or (splice_in low value values) low 0 ≡ value
  unfolding splice_in
  get_or-splice_at zero values h = refl
  get_or-splice_at (suc low) [] h = absurd (omega (arith, h))
  get_or-splice_at (suc low) (x ∷ values) h = get_or-splice_at low values (omega (arith, h))

  get_or-splice_behind :
      (low : ℕ) (values : List ℕ) (i : ℕ)
      → low ≤ length values
      → low ≤ i
      → get_or (splice_in low value values) (suc i) 0 ≡ get_or values i 0
  unfolding splice_in
  get_or-splice_behind zero values i h behind = refl
  get_or-splice_behind (suc low) [] i h behind = absurd (omega (arith, h))
  get_or-splice_behind (suc low) (x ∷ values) zero h behind = absurd (omega (arith, behind))
  get_or-splice_behind (suc low) (x ∷ values) (suc i) h behind =
      get_or-splice_behind low values i (omega (arith, h)) (omega (arith, behind))

  length-splice_in :
      (low : ℕ) (values : List ℕ)
      → low ≤ length values
      → length (splice_in low value values) ≡ suc (length values)
  unfolding splice_in
  length-splice_in zero values h = refl
  length-splice_in (suc low) [] h = absurd (omega (arith, h))
  length-splice_in (suc low) (x ∷ values) h =
      ap suc (length-splice_in low values (omega (arith, h)))

  Ascending-behind :
      (low : ℕ) (values : List ℕ)
      → Ascending values
      → IsPlace values value low
      → ((i : ℕ) → i < length values → get_or values i 0 ≢ value)
      → (i j : ℕ) → i < suc j
      → j < length values
      → get_or (splice_in low value values) (suc j) 0 ≡ get_or values j 0
      → ¬ (i < low)
      → get_or (splice_in low value values) i 0 < get_or (splice_in low value values) (suc j) 0
  Ascending-behind low values asc p absent zero j less short there from = elim (ℕ_discrete 0 low) [
    | yes at ↦
        let here =
          ap (λ (k : ℕ). get_or (splice_in low value values) k 0) at
          ∙ get_or-splice_at low values p.inside in
        omega (arith, here, there, absent j short, p.not_less j (omega (arith, at)) short)
    | no other ↦ absurd (omega (arith, from, other))
  ]
  Ascending-behind low values asc p absent (suc i) j less short there from =
      elim (ℕ_discrete (suc i) low) [
        | yes at ↦
            let here =
              ap (λ (k : ℕ). get_or (splice_in low value values) k 0) at
              ∙ get_or-splice_at low values p.inside in
            omega (arith, here, there, absent j short, p.not_less j (omega (arith, at, less)) short)
        | no other ↦ omega (
          arith,
          there,
          get_or-splice_behind low values i p.inside (omega (arith, from, other)),
          asc i j (omega (arith, less)) short,
        )
      ]

  Ascending-splice_in :
      (low : ℕ) (values : List ℕ)
      → Ascending values
      → IsPlace values value low
      → ((i : ℕ) → i < length values → get_or values i 0 ≢ value)
      → Ascending (splice_in low value values)
  Ascending-splice_in low values asc p absent i zero less size = absurd (omega (arith, less))
  Ascending-splice_in low values asc p absent i (suc j) less size =
      let short : j < length values = omega (arith, size, length-splice_in low values p.inside) in
      elim (dec_lt (suc j) low) [
        | yes before ↦ omega (
          arith,
          get_or-splice_before low values i p.inside (omega (arith, before, less)),
          get_or-splice_before low values (suc j) p.inside before,
          asc i (suc j) less (omega (arith, before, p.inside)),
        )
        | no from ↦ elim (ℕ_discrete (suc j) low) [
          | yes at ↦
              let here =
                ap (λ (k : ℕ). get_or (splice_in low value values) k 0) at
                ∙ get_or-splice_at low values p.inside in
              omega (
                arith,
                here,
                get_or-splice_before low values i p.inside (omega (arith, less, at)),
                p.less i (omega (arith, less, at)),
              )
          | no behind ↦
              let there =
                get_or-splice_behind low values j p.inside (omega (arith, from, behind)) in
              elim (dec_lt i low) [
                | yes before ↦ omega (
                  arith,
                  there,
                  get_or-splice_before low values i p.inside before,
                  asc i j (omega (arith, before, from, behind)) short,
                )
                | no i_from ↦ Ascending-behind low values asc p absent i j less short there i_from
              ]
        ]
      ]

-- The value is put in its place by the binary search, in at most as many rounds as there are values: the
-- sorted values stay in ascending order when the value is not among them.
pub insert_sorted_lem :
    (values : List ℕ) (value : ℕ)
    → Ascending values
    → ((i : ℕ) → i < length values → get_or values i 0 ≢ value)
    → (low : ℕ) × (insert_sorted values value ≡ ok (take low values ++ (value ∷ drop low values)))
      × IsPlace values value low
      × Ascending (take low values ++ (value ∷ drop low values))
unfolding insert_sorted splice_in
insert_sorted_lem values value asc absent =
    let (low, found, p) =
      search_loop_lem (length values) values value 0 (length values) asc (omega arith) (omega arith)
        (omega arith) (λ i h. absurd (omega (arith, h)))
        (λ i from to. absurd (omega (arith, from, to))) in
    (low, rw found refl, p, Ascending-splice_in value low values asc p absent)

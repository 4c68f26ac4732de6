-- ===== src/Prelude/Maps.antt =====
-- The `Map` of JavaScript: its entries in the order of insertion.
use mathlib.Core.List.{Memᴰ}
use mathlib.Core.Path.{◌≡◌, refl, sym, ap, ap₂, ◌∙◌, subst}
use mathlib.Core.Logic.{◌≢◌, inl, inr}
use mathlib.Core.Bool.{Bool, true, false}
use mathlib.Core.Option.{Option, none, some}
use mathlib.Core.List.{List, [], ◌∷◌, ◌++◌, map}
use pocket_db.Prelude.Lists.{All}
use mathlib.Core.Option.{some-injective}
use pocket_db.Prelude.Tests.{if◌then◌else◌, Bool-cases}

-- `===` on the keys.
pub record Equality {ℓ} (A : Type ℓ) : Type ℓ where
  pub same : A → A → Bool
  pub same→≡ : (a b : A) → same a b ≡ true → a ≡ b
  pub same-refl : (a : A) → same a a ≡ true

pub same-different {ℓ} : {A : Type ℓ} (eq : Equality A) (a b : A) → a ≢ b → eq.same a b ≡ false
same-different eq a b h = elim (Bool-cases (eq.same a b)) [
  | inl e ↦ absurd (h (eq.same→≡ a b e))
  | inr e ↦ e
]

pub different-apart {ℓ} : {A : Type ℓ} (eq : Equality A) (a b : A) → eq.same a b ≡ false → a ≢ b
different-apart eq a b e p = absurd (cc (eq.same-refl a, ap (eq.same a) p))

pub none-some {ℓ} : {A : Type ℓ} {a : A} → none ≡ some a → ⊥
none-some h = absurd cc

pub some-none {ℓ} : {A : Type ℓ} {a : A} → some a ≡ none → ⊥
some-none h = absurd cc

module _ {ℓ κ} {K : Type ℓ} {V : Type κ} (eq : Equality K) where
  -- `map.get`
  abbrev pub lookup : K → List (K × V) → Option V
  lookup k [] = none
  lookup k ((k', v) ∷ m) = if eq.same k k' then some v else lookup k m

  -- `map.delete`
  abbrev pub delete : K → List (K × V) → List (K × V)
  delete k [] = []
  delete k ((k', v) ∷ m) = if eq.same k k' then delete k m else (k', v) ∷ delete k m

  -- `map.set`: a key that is there keeps its place.
  abbrev pub insert : K → V → List (K × V) → List (K × V)
  insert k v [] = (k, v) ∷ []
  insert k v ((k', v') ∷ m) = if eq.same k k' then (k', v) ∷ m else (k', v') ∷ insert k v m

  -- No key twice.
  abbrev pub Distinct : List (K × V) → Type κ
  Distinct [] = Unit
  Distinct ((k, v) ∷ m) = (lookup k m ≡ none) × Distinct m

  pub lookup-delete_same : (k : K) (m : List (K × V)) → lookup k (delete k m) ≡ none
  lookup-delete_same k [] = refl
  lookup-delete_same k ((k', v) ∷ m) = elim (Bool-cases (eq.same k k')) [
    | inl e ↦ rw e (lookup-delete_same k m)
    | inr e ↦ rw (e, e) (lookup-delete_same k m)
  ]

  pub lookup-delete_other :
      (k k' : K) (m : List (K × V)) → k ≢ k' → lookup k (delete k' m) ≡ lookup k m
  lookup-delete_other k k' [] h = refl
  lookup-delete_other k k' ((j, v) ∷ m) h = elim (Bool-cases (eq.same k' j)) [
    | inl e ↦
        let p = eq.same→≡ k' j e in
        let q : eq.same k j ≡ false = same-different eq k j (λ r. h (r ∙ sym p)) in
        rw (e, q) (lookup-delete_other k k' m h)
    | inr e ↦
        rw e
          (ap (λ (o : Option V). if eq.same k j then some v else o) (lookup-delete_other k k' m h))
  ]

  pub lookup-delete-none :
      (k k' : K) (m : List (K × V)) → lookup k m ≡ none → lookup k (delete k' m) ≡ none
  lookup-delete-none k k' m h = elim (Bool-cases (eq.same k k')) [
    | inl e ↦ ap (λ (j : K). lookup j (delete k' m)) (eq.same→≡ k k' e) ∙ lookup-delete_same k' m
    | inr e ↦ lookup-delete_other k k' m (different-apart eq k k' e) ∙ h
  ]

  pub Distinct-delete : (k : K) (m : List (K × V)) → Distinct m → Distinct (delete k m)
  Distinct-delete k [] d = tt
  Distinct-delete k ((k', v) ∷ m) d = elim (Bool-cases (eq.same k k')) [
    | inl e ↦ rw e (Distinct-delete k m d.1)
    | inr e ↦ rw e (lookup-delete-none k' k m d.0, Distinct-delete k m d.1)
  ]

  pub lookup-insert_same : (k : K) (v : V) (m : List (K × V)) → lookup k (insert k v m) ≡ some v
  lookup-insert_same k v [] = rw (eq.same-refl k) refl
  lookup-insert_same k v ((k', v') ∷ m) = elim (Bool-cases (eq.same k k')) [
    | inl e ↦ rw (e, e) refl
    | inr e ↦ rw (e, e) (lookup-insert_same k v m)
  ]

  pub lookup-insert_other :
      (k k' : K) (v : V) (m : List (K × V)) → k ≢ k' → lookup k (insert k' v m) ≡ lookup k m
  lookup-insert_other k k' v [] h = rw (same-different eq k k' h) refl
  lookup-insert_other k k' v ((j, w) ∷ m) h = elim (Bool-cases (eq.same k' j)) [
    | inl e ↦
        let p = eq.same→≡ k' j e in
        let q : eq.same k j ≡ false = same-different eq k j (λ r. h (r ∙ sym p)) in rw (e, q) refl
    | inr e ↦
        rw e (
          ap (λ (o : Option V). if eq.same k j then some w else o) (lookup-insert_other k k' v m h))
  ]

  pub Distinct-insert : (k : K) (v : V) (m : List (K × V)) → Distinct m → Distinct (insert k v m)
  Distinct-insert k v [] d = (refl, tt)
  Distinct-insert k v ((k', v') ∷ m) d = elim (Bool-cases (eq.same k k')) [
    | inl e ↦ rw e (d.0, d.1)
    | inr e ↦ rw e (
      lookup-insert_other k' k v m (λ p. different-apart eq k k' e (sym p)) ∙ d.0,
      Distinct-insert k v m d.1,
    )
  ]

  pub delete_of_none : (k : K) (m : List (K × V)) → lookup k m ≡ none → delete k m ≡ m
  delete_of_none k [] h = refl
  delete_of_none k ((k', v) ∷ m) h = elim (Bool-cases (eq.same k k')) [
    | inl e ↦ absurd (some-none (sym (ap (λ (b : Bool). if b then some v else lookup k m) e) ∙ h))
    | inr e ↦
        let h' : lookup k m ≡ none =
          sym (ap (λ (b : Bool). if b then some v else lookup k m) e) ∙ h in
        rw e (ap (◌∷◌ (k', v)) (delete_of_none k m h'))
  ]

  pub insert_of_none :
      (k : K) (v : V) (m : List (K × V)) → lookup k m ≡ none → insert k v m ≡ m ++ ((k, v) ∷ [])
  insert_of_none k v [] h = refl
  insert_of_none k v ((k', v') ∷ m) h = elim (Bool-cases (eq.same k k')) [
    | inl e ↦ absurd (some-none (sym (ap (λ (b : Bool). if b then some v' else lookup k m) e) ∙ h))
    | inr e ↦
        let h' : lookup k m ≡ none =
          sym (ap (λ (b : Bool). if b then some v' else lookup k m) e) ∙ h in
        rw e (ap (◌∷◌ (k', v')) (insert_of_none k v m h'))
  ]

  pub Distinct-suffix : (m m' : List (K × V)) → Distinct (m ++ m') → Distinct m'
  Distinct-suffix [] m' d = d
  Distinct-suffix (p ∷ m) m' d = Distinct-suffix m m' d.1

  pub lookup-append_none :
      (k : K) (m m' : List (K × V)) → lookup k (m ++ m') ≡ none → lookup k m' ≡ none
  lookup-append_none k [] m' h = h
  lookup-append_none k ((j, w) ∷ m) m' h = elim (Bool-cases (eq.same k j)) [
    | inl e ↦
        absurd (some-none (sym (ap (λ (b : Bool). if b then some w else lookup k (m ++ m')) e) ∙ h))
    | inr e ↦
        lookup-append_none k m m'
          (sym (ap (λ (b : Bool). if b then some w else lookup k (m ++ m')) e) ∙ h)
  ]

  pub lookup-suffix :
      (k : K) {v : V} (m m' : List (K × V))
      → Distinct (m ++ m')
      → lookup k m' ≡ some v
      → lookup k (m ++ m') ≡ some v
  lookup-suffix k [] m' d h = h
  lookup-suffix k {v} ((j, w) ∷ m) m' d h = elim (Bool-cases (eq.same k j)) [
    | inl e ↦
        let p = eq.same→≡ k j e in
        absurd (
          some-none (sym (ap (λ (i : K). lookup i m') (sym p) ∙ h) ∙ lookup-append_none j m m' d.0))
    | inr e ↦ rw e (lookup-suffix k m m' d.1 h)
  ]

  pub lookup-All {ν} :
      (P : K × V → Type ν) (k : K) {v : V} (m : List (K × V))
      → All P m
      → lookup k m ≡ some v
      → P (k, v)
  lookup-All P k [] p h = absurd (none-some h)
  lookup-All P k {v} ((j, w) ∷ m) p h = elim (Bool-cases (eq.same k j)) [
    | inl e ↦
        let q : w ≡ v =
          some-injective _ _ (sym (ap (λ (b : Bool). if b then some w else lookup k m) e) ∙ h) in
        subst P (ap₂ (λ (a : K) (b : V). (a, b)) (sym (eq.same→≡ k j e)) q) p.0
    | inr e ↦ lookup-All P k m p.1 (sym (ap (λ (b : Bool). if b then some w else lookup k m) e) ∙ h)
  ]

  pub All-delete {ν} :
      (P : K × V → Type ν) (k : K) (m : List (K × V)) → All P m → All P (delete k m)
  All-delete P k [] p = tt
  All-delete P k ((j, w) ∷ m) p = elim (Bool-cases (eq.same k j)) [
    | inl e ↦ rw e (All-delete P k m p.1)
    | inr e ↦ rw e (p.0, All-delete P k m p.1)
  ]

  pub All-insert {ν} :
      (P : K × V → Type ν) (k : K) (v : V) (m : List (K × V))
      → All P m
      → P (k, v)
      → All P (insert k v m)
  All-insert P k v [] p q = (q, tt)
  All-insert P k v ((j, w) ∷ m) p q = elim (Bool-cases (eq.same k j)) [
    | inl e ↦ rw e (subst P (ap (λ (a : K). (a, v)) (eq.same→≡ k j e)) q, p.1)
    | inr e ↦ rw e (p.0, All-insert P k v m p.1 q)
  ]

  pub lookup-insert :
      (j k : K) (v : V) (m : List (K × V))
      → lookup j (insert k v m) ≡ (if eq.same j k then some v else lookup j m)
  lookup-insert j k v m = elim (Bool-cases (eq.same j k)) [
    | inl e ↦
        rw e (ap (λ (i : K). lookup i (insert k v m)) (eq.same→≡ j k e) ∙ lookup-insert_same k v m)
    | inr e ↦ rw e (lookup-insert_other j k v m (different-apart eq j k e))
  ]

  pub lookup-delete :
      (j k : K) (m : List (K × V))
      → lookup j (delete k m) ≡ (if eq.same j k then none else lookup j m)
  lookup-delete j k m = elim (Bool-cases (eq.same j k)) [
    | inl e ↦
        rw e (ap (λ (i : K). lookup i (delete k m)) (eq.same→≡ j k e) ∙ lookup-delete_same k m)
    | inr e ↦ rw e (lookup-delete_other j k m (different-apart eq j k e))
  ]

  pub lookup-Mem :
      (k : K) {v : V} (m : List (K × V)) → lookup k m ≡ some v → Memᴰ v (map (λ (p : K × V). p.1) m)
  lookup-Mem k [] h = absurd (none-some h)
  lookup-Mem k {v} ((j, w) ∷ m) h = elim (Bool-cases (eq.same k j)) [
    | inl e ↦
        Memᴰ.head (
          some-injective _ _
            (sym (sym (ap (λ (b : Bool). if b then some w else lookup k m) e) ∙ h)))
    | inr e ↦
        Memᴰ.tail (lookup-Mem k m (sym (ap (λ (b : Bool). if b then some w else lookup k m) e) ∙ h))
  ]

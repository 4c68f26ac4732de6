-- ===== src/Prelude/Lists.antt =====
-- Lists measured and indexed by native numbers, under the library's names, and `subarray`.
use Prim.Native.Nat.{ℕ, zero, suc, ◌+◌, ◌-◌, ◌≤◌, ◌<◌}
use mathlib.Core.Path.{◌≡◌, refl, ap, sym, ◌∙◌, subst}
use mathlib.Core.List.{List, [], ◌∷◌, ◌++◌, append-nil}
use mathlib.Core.Option.{Option, none, some, some-injective}
use native.Mathlib.Nat.{zero-add, suc-add}
use native.Mathlib.Omega.{arith}

module _ {ℓ} {A : Type ℓ} where
  abbrev pub length : List A → ℕ
  length [] = 0
  length (x ∷ xs) = suc (length xs)

  abbrev pub get_elem? : List A → ℕ → Option A
  get_elem? [] i = none
  get_elem? (x ∷ xs) zero = some x
  get_elem? (x ∷ xs) (suc i) = get_elem? xs i

  abbrev pub get_or : List A → ℕ → A → A
  get_or [] i d = d
  get_or (x ∷ xs) zero d = x
  get_or (x ∷ xs) (suc i) d = get_or xs i d

  abbrev pub take : ℕ → List A → List A
  take zero xs = []
  take (suc n) [] = []
  take (suc n) (x ∷ xs) = x ∷ take n xs

  abbrev pub drop : ℕ → List A → List A
  drop zero xs = xs
  drop (suc n) [] = []
  drop (suc n) (x ∷ xs) = drop n xs

  abbrev pub replicate : ℕ → A → List A
  replicate zero a = []
  replicate (suc n) a = a ∷ replicate n a

  -- `buffer.subarray(start, end)`: both ends are cut at the length, and an `end` that is not
  -- above `start` gives the empty buffer.
  unfoldable pub subarray : List A → ℕ → ℕ → List A
  subarray xs start end = take (end - start) (drop start xs)

  abbrev pub All {κ} : (A → Type κ) → List A → Type κ
  All P [] = Unit {κ}
  All P (x ∷ xs) = P x × All P xs

module _ {ℓ} {A : Type ℓ} where
  pub length-append : (xs ys : List A) → length (xs ++ ys) ≡ length xs + length ys
  length-append [] ys = omega arith
  length-append (x ∷ xs) ys = omega (arith, length-append xs ys)

  pub length-drop : (n : ℕ) (xs : List A) → length (drop n xs) ≡ length xs - n
  length-drop zero xs = omega arith
  length-drop (suc n) [] = omega arith
  length-drop (suc n) (x ∷ xs) = omega (arith, length-drop n xs)

  pub length-take_of_le : (n : ℕ) (xs : List A) → n ≤ length xs → length (take n xs) ≡ n
  length-take_of_le zero xs h = refl
  length-take_of_le (suc n) [] h = elim h [ ]
  length-take_of_le (suc n) (x ∷ xs) h = omega (arith, length-take_of_le n xs (omega arith))

  pub length-replicate : (n : ℕ) (a : A) → length (replicate n a) ≡ n
  length-replicate zero a = refl
  length-replicate (suc n) a = ap suc (length-replicate n a)

  pub take-append_length : (xs ys : List A) → take (length xs) (xs ++ ys) ≡ xs
  take-append_length [] ys = refl
  take-append_length (x ∷ xs) ys = ap (◌∷◌ x) (take-append_length xs ys)

  pub drop-append_length : (xs ys : List A) → drop (length xs) (xs ++ ys) ≡ ys
  drop-append_length [] ys = refl
  drop-append_length (x ∷ xs) ys = drop-append_length xs ys

  pub take_of_length-le : (n : ℕ) (xs : List A) → length xs ≤ n → take n xs ≡ xs
  take_of_length-le zero [] h = refl
  take_of_length-le zero (x ∷ xs) h = elim h [ ]
  take_of_length-le (suc n) [] h = refl
  take_of_length-le (suc n) (x ∷ xs) h = ap (◌∷◌ x) (take_of_length-le n xs (omega arith))

  pub take-append-drop : (n : ℕ) (xs : List A) → take n xs ++ drop n xs ≡ xs
  take-append-drop zero xs = refl
  take-append-drop (suc n) [] = refl
  take-append-drop (suc n) (x ∷ xs) = ap (◌∷◌ x) (take-append-drop n xs)

  pub get_elem?-append_right :
      (xs ys : List A) (i : ℕ) → get_elem? (xs ++ ys) (length xs + i) ≡ get_elem? ys i
  get_elem?-append_right [] ys i = ap (get_elem? ys) (omega arith)
  get_elem?-append_right (x ∷ xs) ys i =
      ap (get_elem? (x ∷ xs ++ ys)) (shift (length xs)) ∙ get_elem?-append_right xs ys i
    where
      shift : (n : ℕ) → suc n + i ≡ suc (n + i)
      shift n = omega arith

  -- The bytes of the middle part, by its ends.
  pub subarray-middle :
      (xs ys zs : List A) {i j : ℕ}
      → i ≡ length xs
      → j ≡ length xs + length ys
      → subarray (xs ++ (ys ++ zs)) i j ≡ ys
  unfolding subarray
  subarray-middle xs ys zs {i} {j} p q =
      rw p (rw (drop-append_length xs (ys ++ zs)) (rw (width p q) (take-append_length ys zs)))
    where
      width : i ≡ length xs → j ≡ length xs + length ys → j - length xs ≡ length ys
      width p' q' = omega arith

module _ {ℓ} {A : Type ℓ} where
  pub get_elem?-lt : (xs : List A) (i : ℕ) {x : A} → get_elem? xs i ≡ some x → i < length xs
  get_elem?-lt [] i h = cc
  get_elem?-lt (x ∷ xs) zero h = omega arith
  get_elem?-lt (x ∷ xs) (suc i) h = omega (arith, get_elem?-lt xs i h)

  pub All-get_elem? {κ} :
      (P : A → Type κ) (xs : List A) (i : ℕ) {x : A} → All P xs → get_elem? xs i ≡ some x → P x
  All-get_elem? P [] i p h = cc
  All-get_elem? P (x ∷ xs) zero p h = subst P (some-injective _ _ h) p.0
  All-get_elem? P (x ∷ xs) (suc i) p h = All-get_elem? P xs i p.1 h

  pub All-append {κ} : (P : A → Type κ) (xs ys : List A) → All P xs → All P ys → All P (xs ++ ys)
  All-append P [] ys p q = q
  All-append P (x ∷ xs) ys p q = (p.0, All-append P xs ys p.1 q)

  pub All-suffix {κ} : (P : A → Type κ) (xs ys : List A) → All P (xs ++ ys) → All P ys
  All-suffix P [] ys p = p
  All-suffix P (x ∷ xs) ys p = All-suffix P xs ys p.1

  pub All-prefix {κ} : (P : A → Type κ) (xs ys : List A) → All P (xs ++ ys) → All P xs
  All-prefix P [] ys p = tt
  All-prefix P (x ∷ xs) ys p = (p.0, All-prefix P xs ys p.1)

  pub All-take {κ} : (P : A → Type κ) (n : ℕ) (xs : List A) → All P xs → All P (take n xs)
  All-take P zero xs p = tt
  All-take P (suc n) [] p = tt
  All-take P (suc n) (x ∷ xs) p = (p.0, All-take P n xs p.1)

  pub All-drop {κ} : (P : A → Type κ) (n : ℕ) (xs : List A) → All P xs → All P (drop n xs)
  All-drop P zero xs p = p
  All-drop P (suc n) [] p = tt
  All-drop P (suc n) (x ∷ xs) p = All-drop P n xs p.1

  -- The whole tail.
  pub subarray-tail :
      (xs ys : List A) {i j : ℕ}
      → i ≡ length xs
      → j ≡ length xs + length ys
      → subarray (xs ++ ys) i j ≡ ys
  subarray-tail xs ys {i} {j} p q =
      ap (λ (t : List A). subarray (xs ++ t) i j) (sym (append-nil ys))
      ∙ subarray-middle xs ys [] p q

module _ {ℓ} {A : Type ℓ} where
  pub take-nil : (n : ℕ) → take {A = A} n [] ≡ []
  take-nil zero = refl
  take-nil (suc n) = refl

  pub drop-nil : (n : ℕ) → drop {A = A} n [] ≡ []
  drop-nil zero = refl
  drop-nil (suc n) = refl

  pub drop-drop : (n m : ℕ) (xs : List A) → drop m (drop n xs) ≡ drop (n + m) xs
  drop-drop zero m xs = ap (λ (k : ℕ). drop k xs) (sym (zero-add m))
  drop-drop (suc n) m [] = drop-nil m ∙ sym (drop-nil (suc n + m))
  drop-drop (suc n) m (x ∷ xs) =
      drop-drop n m xs ∙ ap (λ (k : ℕ). drop k (x ∷ xs)) (sym (suc-add n m))

  pub take-append-take-drop :
      (n m : ℕ) (xs : List A) → take n xs ++ take m (drop n xs) ≡ take (n + m) xs
  take-append-take-drop zero m xs = ap (λ (k : ℕ). take k xs) (sym (zero-add m))
  take-append-take-drop (suc n) m [] = take-nil m ∙ sym (take-nil (suc n + m))
  take-append-take-drop (suc n) m (x ∷ xs) =
      ap (◌∷◌ x) (take-append-take-drop n m xs)
      ∙ ap (λ (k : ℕ). take k (x ∷ xs)) (sym (suc-add n m))

  pub drop_of_length-le : (n : ℕ) (xs : List A) → length xs ≤ n → drop n xs ≡ []
  drop_of_length-le n [] h = drop-nil n
  drop_of_length-le zero (x ∷ xs) h = elim h [ ]
  drop_of_length-le (suc n) (x ∷ xs) h = drop_of_length-le n xs (omega arith)

  pub take-take : (m k : ℕ) (xs : List A) → m ≤ k → take m (take k xs) ≡ take m xs
  take-take zero k xs h = refl
  take-take (suc m) zero xs h = elim h [ ]
  take-take (suc m) (suc k) [] h = refl
  take-take (suc m) (suc k) (x ∷ xs) h = ap (◌∷◌ x) (take-take m k xs (omega arith))

  pub drop-take : (m k : ℕ) (xs : List A) → drop m (take k xs) ≡ take (k - m) (drop m xs)
  drop-take zero k xs = ap (λ (n : ℕ). take n xs) (omega arith)
  drop-take (suc m) zero xs =
      let none_left : zero - suc m ≡ 0 = omega arith in
      drop-nil (suc m) ∙ sym (ap (λ (n : ℕ). take n (drop (suc m) xs)) none_left)
  drop-take (suc m) (suc k) [] = sym (take-nil (suc k - suc m))
  drop-take (suc m) (suc k) (x ∷ xs) =
      drop-take m k xs ∙ ap (λ (n : ℕ). take n (drop m xs)) (omega arith)

  -- A part of a buffer that lies in a prefix of it.
  pub subarray-take : (k i j : ℕ) (xs : List A) → j ≤ k → subarray (take k xs) i j ≡ subarray xs i j
  unfolding subarray
  subarray-take k i j xs h =
      ap (take (j - i)) (drop-take i k xs) ∙ take-take (j - i) (k - i) (drop i xs) (omega arith)

  pub length-zero : (xs : List A) → length xs ≡ 0 → xs ≡ []
  length-zero [] h = refl
  length-zero (x ∷ xs) h = absurd (omega arith)

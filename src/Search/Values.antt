-- ===== src/Search/Values.antt =====
-- The values of documents: `DocumentValue` of search/types.ts.
use pocket_db.Prelude.{
  ℕ, ◌≡◌, refl, Bool, true, false, ◌&&◌, Option, none, some, List, [], ◌∷◌, arith, ◌==◌, Equality,
  lookup,
}

-- A string is the list of its UTF-16 code units.
abbrev pub Text : Type 0
Text = List ℕ

-- A number: the finite ones are named by their place in ascending order, where the two zeros, which no
-- operator of the sources tells apart, share one.
pub data Number : Type 0 where
  nan : Number
  minus_infinity : Number
  finite : ℕ → Number
  plus_infinity : Number

mutual
  pub data Value : Type 0 where
    null : Value
    boolean : Bool → Value
    number : Number → Value
    string : Text → Value
    array : Values → Value
    object : Fields → Value

  pub data Values : Type 0 where
    no_values : Values
    value_then : Value → Values → Values

  pub data Fields : Type 0 where
    no_fields : Fields
    field_then : Text → Value → Fields → Fields

-- `Array.isArray`
abbrev pub is_array_value : Value → Bool
is_array_value (array _) = true
is_array_value _ = false

-- `QueryValue`: `none` is `undefined`.
abbrev pub QueryValue : Type 0
QueryValue = Option Value

-- `DocumentRecord`: a field can be there and hold `undefined`.
abbrev pub DocumentRecord : Type 0
DocumentRecord = List (Text × QueryValue)

-- `===` on strings
unfoldable pub text_same : Text → Text → Bool
text_same [] [] = true
text_same (a ∷ s) (b ∷ t) = a == b && text_same s t
text_same _ _ = false

pub text_same→≡ : (s t : Text) → text_same s t ≡ true → s ≡ t
unfolding text_same
text_same→≡ [] [] h = refl
text_same→≡ [] (b ∷ t) h = cc
text_same→≡ (a ∷ s) [] h = cc
text_same→≡ (a ∷ s) (b ∷ t) h = ground (arith, text_same→≡ s t)

pub text_same_refl : (s : Text) → text_same s s ≡ true
unfolding text_same
text_same_refl [] = refl
text_same_refl (a ∷ s) = ground (arith, text_same_refl s)

unfoldable pub text_equality : Equality Text
text_equality = record { same = text_same; same→≡ = text_same→≡; same-refl = text_same_refl }

-- `Object.hasOwn(document, field)`
unfoldable pub has_own : DocumentRecord → Text → Bool
has_own document field = elim (lookup text_equality field document) [ none ↦ false | some _ ↦ true ]

-- `document[field]`
unfoldable pub field_of : DocumentRecord → Text → QueryValue
field_of document field = elim (lookup text_equality field document) [ none ↦ none | some v ↦ v ]

-- `===` on numbers
unfoldable pub number_same : Number → Number → Bool
number_same minus_infinity minus_infinity = true
number_same plus_infinity plus_infinity = true
number_same (finite a) (finite b) = a == b
number_same _ _ = false

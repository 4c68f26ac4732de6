-- ===== src/Search/Update.antt =====
-- search/update-document.ts. The entries of an update stand in the order of `Object.entries`.
use pocket_db.Prelude.{
  Bool, true, false, not, ◌||◌, Option, none, some, List, [], ◌∷◌, ◌==◌, if◌then◌else◌, length,
  Result, throw_if, ◌>>=◌, ◌>>◌, delete, insert, unsupported_update_operator, not_a_number,
  no_number_field, bad_rename, same_rename, bad_current_date, no_array_field, bad_pop,
  pull_all_not_array, ok, err,
}
use pocket_db.Search.Values.{
  Text, Number, nan, Value, number, string, array, Values, no_values, value_then, QueryValue,
  DocumentRecord, text_same, text_equality, has_own, field_of,
}
use pocket_db.Search.Queries.{Js}
use pocket_db.Search.Evaluate.{
  difference, is_before, is_after, values_equal, any_equal, every_operator,
}
use pocket_db.Search.Compile.{Raw, RegExps, value_of, is_operator_object, compile_field_operators}

-- The arithmetic of the language, and the two forms of the current time.
pub record Clock : Type 0 where
  pub sum : Number → Number → Number
  pub product : Number → Number → Number
  pub iso_text : Text
  pub milliseconds : Number

-- `CurrentDateSpec`: `true` or a date, a timestamp, or anything else.
pub data DateSpec : Type 0 where
  date timestamp other_spec : DateSpec

-- The operand of `$pop`: 1, -1, or anything else.
pub data PopSide : Type 0 where
  last_element first_element other_side : PopSide

-- An entry of `UpdateExpression`; `unsupported` stands for any other key.
pub data UpdateOperator : Type 0 where
  set unset min_of max_of inc mul push add_to_set : List (Text × QueryValue) → UpdateOperator
  -- the new name; `none` is no string
  rename : List (Text × Option Text) → UpdateOperator
  current_date : List (Text × DateSpec) → UpdateOperator
  pop : List (Text × PopSide) → UpdateOperator
  pull : List (Text × Raw) → UpdateOperator
  -- the listed values; `none` is no array
  pull_all : List (Text × Option (List QueryValue)) → UpdateOperator
  unsupported : UpdateOperator

abbrev pub UpdateExpression : Type 0
UpdateExpression = List UpdateOperator

-- `document[field] = value`
unfoldable pub assign : DocumentRecord → Text → QueryValue → DocumentRecord
assign document field value = insert text_equality field value document

-- `delete document[field]`
unfoldable pub discard : DocumentRecord → Text → DocumentRecord
discard document field = delete text_equality field document

unfoldable pub get_existing_number : DocumentRecord → Text → Result Number
get_existing_number document field = elim (field_of document field) [
  | some (number n) ↦ ok n
  | _ ↦ err no_number_field
]

unfoldable pub get_existing_array : DocumentRecord → Text → Result Values
get_existing_array document field = elim (field_of document field) [
  | some (array vs) ↦ ok vs
  | _ ↦ err no_array_field
]

-- `assertNumberUpdateValue`, with the number that it lets pass.
unfoldable pub number_update_value : QueryValue → Result Number
number_update_value (some (number nan)) = err not_a_number
number_update_value (some (number n)) = ok n
number_update_value _ = err not_a_number

unfoldable pub apply_set : DocumentRecord → List (Text × QueryValue) → DocumentRecord
unfolding assign
apply_set document [] = document
apply_set document ((field, value) ∷ values) = apply_set (assign document field value) values

unfoldable pub apply_unset : DocumentRecord → List (Text × QueryValue) → DocumentRecord
unfolding discard
apply_unset document [] = document
apply_unset document ((field, value) ∷ values) = apply_unset (discard document field) values

-- The body that `$min`, `$max`, `$inc` and `$mul` share: the value that the field is given, if any, from
-- the operand and the current number.
unfoldable pub apply_number :
    (Number → Number → Option Number)
    → DocumentRecord
    → List (Text × QueryValue)
    → Result DocumentRecord
unfolding number_update_value get_existing_number assign
apply_number change document [] = ok document
apply_number change document ((field, operand) ∷ values) = do
  value ← number_update_value operand
  current ← get_existing_number document field
  let document' : DocumentRecord = elim (change value current) [
    | none ↦ document
    | some n ↦ assign document field (some (number n))
  ]
  apply_number change document' values

-- `value < current`, and `value > current`
unfoldable pub smaller : Number → Number → Option Number
smaller value current = if is_before (difference value current) then some value else none

unfoldable pub larger : Number → Number → Option Number
larger value current = if is_after (difference value current) then some value else none

unfoldable pub apply_rename : DocumentRecord → List (Text × Option Text) → Result DocumentRecord
unfolding assign discard
apply_rename document [] = ok document
apply_rename document ((field, none) ∷ values) = err bad_rename
apply_rename document ((field, some new_name) ∷ values) = do
  throw_if (length new_name == 0) bad_rename
  throw_if (text_same new_name field) same_rename
  apply_rename
      (if has_own document field
        then discard (assign document new_name (field_of document field)) field
        else document)
      values

unfoldable pub apply_current_date :
    Clock → DocumentRecord → List (Text × DateSpec) → Result DocumentRecord
unfolding assign
apply_current_date clock document [] = ok document
apply_current_date clock document ((field, date) ∷ values) =
    apply_current_date clock (assign document field (some (string clock.iso_text))) values
apply_current_date clock document ((field, timestamp) ∷ values) =
    apply_current_date clock (assign document field (some (number clock.milliseconds))) values
apply_current_date clock document ((field, other_spec) ∷ values) = err bad_current_date

-- `[...current, value]`, where `undefined` is written as `null`.
unfoldable pub with_last : Values → QueryValue → Values
with_last no_values none = value_then Value.null no_values
with_last no_values (some v) = value_then v no_values
with_last (value_then first values) value = value_then first (with_last values value)

-- `current.slice(0, -1)`
unfoldable pub without_last : Values → Values
without_last no_values = no_values
without_last (value_then first no_values) = no_values
without_last (value_then first (value_then second values)) =
    value_then first (without_last (value_then second values))

-- `current.slice(1)`
unfoldable pub without_first : Values → Values
without_first no_values = no_values
without_first (value_then first values) = values

-- `current.filter(...)`
unfoldable pub filter_values : (Value → Bool) → Values → Values
filter_values keep no_values = no_values
filter_values keep (value_then first values) =
    let rest = filter_values keep values in if keep first then value_then first rest else rest

-- `current.some(...)`
unfoldable pub some_value : (Value → Bool) → Values → Bool
some_value test no_values = false
some_value test (value_then first values) = test first || some_value test values

unfoldable pub apply_push : DocumentRecord → List (Text × QueryValue) → Result DocumentRecord
unfolding get_existing_array assign with_last
apply_push document [] = ok document
apply_push document ((field, value) ∷ values) = do
  current ← get_existing_array document field
  apply_push (assign document field (some (array (with_last current value)))) values

unfoldable pub apply_pop : DocumentRecord → List (Text × PopSide) → Result DocumentRecord
unfolding get_existing_array assign without_last without_first
apply_pop document [] = ok document
apply_pop document ((field, other_side) ∷ values) = err bad_pop
apply_pop document ((field, last_element) ∷ values) = do
  current ← get_existing_array document field
  apply_pop (assign document field (some (array (without_last current)))) values
apply_pop document ((field, first_element) ∷ values) = do
  current ← get_existing_array document field
  apply_pop (assign document field (some (array (without_first current)))) values

module _ (js : Js) where
  unfoldable pub apply_add_to_set :
      DocumentRecord → List (Text × QueryValue) → Result DocumentRecord
  unfolding get_existing_array assign with_last some_value
  apply_add_to_set document [] = ok document
  apply_add_to_set document ((field, value) ∷ values) = do
    current ← get_existing_array document field
    apply_add_to_set
        (if some_value (λ element. values_equal js (some element) value) current
          then document
          else assign document field (some (array (with_last current value))))
        values

  unfoldable pub apply_pull_all :
      DocumentRecord → List (Text × Option (List QueryValue)) → Result DocumentRecord
  unfolding get_existing_array assign filter_values
  apply_pull_all document [] = ok document
  apply_pull_all document ((field, none) ∷ values) = err pull_all_not_array
  apply_pull_all document ((field, some candidates) ∷ values) = do
    current ← get_existing_array document field
    let kept = filter_values (λ element. not (any_equal js (some element) candidates)) current
    apply_pull_all (assign document field (some (array kept))) values

module _ (js : Js) (re : RegExps js) (clock : Clock) where
  -- The test by which `$pull` keeps an element.
  unfoldable pub pull_keeps : Raw → Result (Value → Bool)
  pull_keeps condition =
      let compiled = do
        operators ← compile_field_operators js re condition
        ok (λ (element : Value). not (every_operator js operators (some element) true))
      in if is_operator_object condition
        then compiled
        else ok (λ (element : Value). not (values_equal js (some element) (value_of condition)))

  unfoldable pub apply_pull : DocumentRecord → List (Text × Raw) → Result DocumentRecord
  unfolding get_existing_array assign filter_values pull_keeps
  apply_pull document [] = ok document
  apply_pull document ((field, condition) ∷ values) = do
    current ← get_existing_array document field
    keep ← pull_keeps condition
    apply_pull (assign document field (some (array (filter_values keep current)))) values

  -- The `switch` of `updateDocument`.
  unfoldable pub apply_operator : DocumentRecord → UpdateOperator → Result DocumentRecord
  unfolding apply_set apply_unset apply_number smaller larger apply_rename apply_current_date
      apply_push apply_add_to_set apply_pop apply_pull apply_pull_all
  apply_operator document (set values) = ok (apply_set document values)
  apply_operator document (unset values) = ok (apply_unset document values)
  apply_operator document (min_of values) = apply_number smaller document values
  apply_operator document (max_of values) = apply_number larger document values
  apply_operator document (inc values) =
      apply_number (λ value current. some (clock.sum current value)) document values
  apply_operator document (mul values) =
      apply_number (λ value current. some (clock.product current value)) document values
  apply_operator document (rename values) = apply_rename document values
  apply_operator document (current_date values) = apply_current_date clock document values
  apply_operator document (push values) = apply_push document values
  apply_operator document (add_to_set values) = apply_add_to_set js document values
  apply_operator document (pop values) = apply_pop document values
  apply_operator document (pull values) = apply_pull document values
  apply_operator document (pull_all values) = apply_pull_all js document values
  apply_operator document unsupported = ok document

  unfoldable pub assert_supported_update : UpdateExpression → Result (Unit {0})
  assert_supported_update [] = ok tt
  assert_supported_update (unsupported ∷ entries) = err unsupported_update_operator
  assert_supported_update (_ ∷ entries) = assert_supported_update entries

  -- The loop of `updateDocument`.
  pub apply_operators : DocumentRecord → UpdateExpression → Result DocumentRecord
  unfolding apply_operator
  apply_operators document [] = ok document
  apply_operators document (entry ∷ entries) = do
    document' ← apply_operator document entry
    apply_operators document' entries

  unfoldable pub update_document : DocumentRecord → UpdateExpression → Result DocumentRecord
  unfolding assert_supported_update apply_operators
  update_document document update = do
    assert_supported_update update
    apply_operators document update

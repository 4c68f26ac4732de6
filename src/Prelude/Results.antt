-- ===== src/Prelude/Results.antt =====
-- A throw as a value. Each constructor of `Error` is one `throw` of the sources.
use mathlib.Core.Path.{◌≡◌, refl}
use mathlib.Core.Bool.{Bool}
use pocket_db.Prelude.Tests.{if◌then◌else◌}
use mathlib.Core.Logic.{◌⊎◌, inl, inr}

pub data Error : Type 0 where
  -- the RangeError of a Buffer read or write outside the buffer, or of a value outside its width
  out_of_range : Error
  -- u29.ts
  u29_range u29_end u29_invalid : Error
  -- operation-record.ts
  identifier_length checksum_mismatch end_of_buffer : Error
  -- file-storage.ts
  end_of_file header_too_short bad_magic bad_version bad_format bad_serialization_version : Error
  -- collection-operation.ts, document-operation.ts, index-operation.ts
  collection_id_length document_id_length wrong_payload_length : Error
  name_exceeds non_zero_padding unknown_index_type unrecognized_layout : Error
  -- document-id.ts
  bad_object_id : Error
  -- document-cache.ts
  max_bytes_positive : Error
  -- sort.ts
  empty_sort too_many_sort_fields empty_sort_field bad_sort_direction : Error
  sort_on_array sort_on_object : Error
  -- compile-query.ts
  logical_not_array unsupported_query_operator in_not_array nin_not_array : Error
  exists_not_boolean options_without_regex not_without_object not_without_operator : Error
  empty_type type_not_string unknown_type_name options_with_regexp regex_not_string : Error
  options_not_string unsupported_flag bad_pattern : Error
  -- update-document.ts
  unsupported_update_operator not_a_number no_number_field bad_rename same_rename : Error
  bad_current_date no_array_field bad_pop pull_all_not_array : Error
  -- index-manager.ts
  unsupported_index_type index_type_mismatch index_unique_mismatch no_index : Error
  value_taken value_taken_in_batch : Error
  -- cursor.ts
  bad_cursor_candidate bad_limit bad_skip : Error
  -- collection.ts
  collection_dropped replacement_required unknown_document id_not_string duplicate_id : Error
  duplicate_id_in_batch missing_id immutable_id shared_value empty_index_field : Error
  bad_rebuild_candidate bad_refresh_candidate bad_distinct_limit too_many_distinct : Error
  -- database.ts
  nested_begin commit_without_begin unknown_collection unsupported_operation : Error
  -- not a throw of the sources: a loop of the model ran out of fuel
  stuck : Error

-- What a method that can throw returns.
pub data Result {ℓ} (A : Type ℓ) : Type ℓ where
  err : Error → Result A
  ok : A → Result A

-- `if (bad) throw e`
abbrev pub throw_if : Bool → Error → Result (Unit {0})
throw_if bad e = if bad then err e else ok tt

infixl 5 ◌>>=◌ ◌>>◌
abbrev pub ◌>>=◌ {κ ν} : {X : Type κ} {Y : Type ν} → Result X → (X → Result Y) → Result Y
err thrown >>= next = err thrown
ok x >>= next = next x

abbrev pub ◌>>◌ {κ} : {Y : Type κ} → Result (Unit {0}) → Result Y → Result Y
first >> rest = first >>= λ _. rest

-- A chain that ends well begins well.
pub >>=-eq-ok {κ ν} :
    {X : Type κ} {Y : Type ν} (first : Result X) (next : X → Result Y) {y : Y}
    → (first >>= next) ≡ ok y
    → (x : X) × (first ≡ ok x) × (next x ≡ ok y)
>>=-eq-ok (err thrown) next ended = absurd cc
>>=-eq-ok (ok x) next ended = (x, refl, ended)

pub ok-injective {ℓ} : {A : Type ℓ} {a b : A} → ok a ≡ ok b → a ≡ b
ok-injective e = cc

pub Result-cases {κ} :
    {X : Type κ} (r : Result X) → ((x : X) × (r ≡ ok x)) ⊎ ((thrown : Error) × (r ≡ err thrown))
Result-cases (err thrown) = inr (thrown, refl)
Result-cases (ok x) = inl (x, refl)

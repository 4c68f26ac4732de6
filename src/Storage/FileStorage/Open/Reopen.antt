-- ===== src/Storage/FileStorage/Open/Reopen.antt =====
-- Which files are opened, and that a file which was created is.
use pocket_db.Storage.FileStorage.Open.{create_file}
use pocket_db.Storage.FileStorage.Open.{open_file}
use pocket_db.Prelude.{
  ℕ, zero, suc, ◌-◌, ◌≤◌, ◌<◌, min, ◌≡◌, refl, sym, ap, ◌∙◌, subst, ◌≢◌, ◌↔◌, inl, inr, true, not,
  none, some, [], ◌∷◌, ◌++◌, arith, ap₂, dec_le, ℕ_discrete, ◌==◌, if◌then◌else◌, lt→ltb,
  Bool-cases, length, take, drop, subarray, length-append, length-drop, length-take_of_le,
  take-append-drop, length-zero, Result, throw_if, ◌>>=◌, ◌>>◌, >>=-eq-ok, bad_version, bad_format,
  bad_serialization_version, ok,
}
use pocket_db.Storage.Buffers.{Buffer, read_u8, write_u8, equals, equals_iff}
use pocket_db.Storage.Constants.{magic_header_bytes}
use pocket_db.Storage.Os.{Os, read_sync, write_at}
use pocket_db.Storage.FileStorage.{DurabilityMode, FileStorage}
use pocket_db.Storage.FileStorage.Open.{is_supported, check_header, opened, open_storage}
use pocket_db.Storage.FileStorage.Replay.Log.{HoldsLog}

-- A file with a header of a supported format, followed by any bytes.
pub record IsDatabaseFile (file : Buffer) (format : ℕ) : Type 0 where
  pub minor : ℕ
  pub rest : Buffer
  pub supported : is_supported format ≡ true
  pub content : file ≡ magic_header_bytes ++ (0 ∷ minor ∷ format ∷ 0 ∷ rest)

four_bytes :
    (l : Buffer)
    → 4 ≤ length l
    → (a : ℕ) × (b : ℕ) × (c : ℕ) × (d : ℕ) × (rest : Buffer) × (l ≡ a ∷ b ∷ c ∷ d ∷ rest)
four_bytes [] h = absurd (omega arith)
four_bytes (a ∷ []) h = absurd (omega arith)
four_bytes (a ∷ b ∷ []) h = absurd (omega arith)
four_bytes (a ∷ b ∷ c ∷ []) h = absurd (omega arith)
four_bytes (a ∷ b ∷ c ∷ d ∷ rest) h = (a, b, c, d, rest, refl)

-- The checks on a header with the right magic.
check_magic :
    (a b c d : ℕ)
    → check_header (magic_header_bytes ++ (a ∷ b ∷ c ∷ d ∷ [])) ≡ (do
      throw_if (not (a == 0)) bad_version
      throw_if (not (is_supported c)) bad_format
      throw_if (not (d == 0)) bad_serialization_version
      ok c)
unfolding check_header read_u8 subarray equals
check_magic a b c d = refl

checks_passed :
    (a c d format : ℕ)
    → (do
      throw_if (not (a == 0)) bad_version
      throw_if (not (is_supported c)) bad_format
      throw_if (not (d == 0)) bad_serialization_version
      ok c)
      ≡ ok format
    → (a ≡ 0) × (d ≡ 0) × (c ≡ format) × (is_supported format ≡ true)
checks_passed a c d format h = elim (Bool-cases (is_supported c)) [
  | inl known ↦ ground arith
  | inr other ↦ ground arith
]

header_magic :
    (header : Buffer) {format : ℕ}
    → check_header header ≡ ok format
    → take 8 header ≡ magic_header_bytes
unfolding check_header subarray
header_magic header h = elim (Bool-cases (equals (take 8 header) magic_header_bytes)) [
  | inl same ↦ (equals_iff (take 8 header) magic_header_bytes).0 same
  | inr other ↦ absurd (ground arith)
]

check_header_iff :
    (header : Buffer) (format : ℕ)
    → length header ≡ 12
    → (check_header header ≡ ok format) ↔ (
        (minor : ℕ) × (is_supported format ≡ true)
        × (header ≡ magic_header_bytes ++ (0 ∷ minor ∷ format ∷ 0 ∷ [])))
check_header_iff header format size = (
  λ h.
      let (a, minor, c, d, rest, shape) =
        four_bytes (drop 8 header) (omega (arith, size, length-drop 8 header)) in
      let none_left : rest ≡ [] =
        length-zero rest (omega (arith, size, length-drop 8 header, ap (length {A = ℕ}) shape)) in
      let whole : header ≡ magic_header_bytes ++ (a ∷ minor ∷ c ∷ d ∷ []) =
        sym (take-append-drop 8 header)
        ∙ ap₂ (λ (s t : Buffer). s ++ t) (header_magic header h)
            (shape ∙ ap (λ (t : Buffer). a ∷ minor ∷ c ∷ d ∷ t) none_left) in
      let (major, version, same, supported) =
        checks_passed a c d format
          (sym (check_magic a minor c d) ∙ ap check_header (sym whole) ∙ h) in
      (
        minor,
        supported,
        whole
            ∙ ap₂ (λ (x y : ℕ). magic_header_bytes ++ (x ∷ minor ∷ c ∷ y ∷ [])) major version
            ∙ ap (λ (x : ℕ). magic_header_bytes ++ (0 ∷ minor ∷ x ∷ 0 ∷ [])) same,
      ),
  λ (minor, supported, shape).
      ap check_header shape ∙ check_magic 0 minor format 0 ∙ rw supported refl,
)

too_short :
    (header : Buffer) {format : ℕ} → length header < 12 → check_header header ≡ ok format → ⊥
unfolding check_header
too_short header h e = ground arith

module _ (os : Os) (file : Buffer) (whole : os.read_count 0 12 ≡ 12) where
  header_of : (k : ℕ) → k ≡ 12 → take (if k == 0 then 0 else os.read_count 0 k) file ≡ take 12 file
  header_of k p =
      ap (λ (k : ℕ). take (if k == 0 then 0 else os.read_count 0 k) file) p
      ∙ ap (λ (n : ℕ). take n file) whole

  header_long : 12 ≤ length file → read_sync os file 12 0 ≡ take 12 file
  unfolding read_sync
  header_long long =
      let available : min 12 (length file - 0) ≡ 12 = omega arith in
      header_of (min 12 (length file - 0)) available

  header_short : length file < 12 → length (read_sync os file 12 0) < 12
  unfolding read_sync
  header_short short =
      le_short
        (if min 12 (length file - 0) == 0 then 0 else os.read_count 0 (min 12 (length file - 0)))
    where
      le_short : (n : ℕ) → length (take n file) < 12
      le_short n = omega (
        arith,
        ap (length {A = ℕ}) (take-append-drop n file),
        length-append {0} (take n file) (drop n file),
      )

  check_file_iff :
      (format : ℕ)
      → (check_header (read_sync os file 12 0) ≡ ok format) ↔ IsDatabaseFile file format
  check_file_iff format = elim (dec_le 12 (length file)) [
    | no short ↦ (
      λ h. absurd (too_short _ (header_short (omega arith)) h),
      λ d. absurd (omega (arith, ap (length {A = ℕ}) d.content)),
    )
    | yes long ↦
        let (to, from) = check_header_iff (take 12 file) format (length-take_of_le 12 file long) in
        (
          λ h.
              let (minor, supported, shape) = to (ap check_header (sym (header_long long)) ∙ h) in
              record {
                minor = minor;
                rest = drop 12 file;
                supported = supported;
                content =
                    sym (take-append-drop 12 file) ∙ ap (λ (t : Buffer). t ++ drop 12 file) shape;
              },
          λ d.
              ap check_header (header_long long)
              ∙ from (d.minor, d.supported, ap (take 12) d.content),
        )
  ]

length-take_le : (n : ℕ) (l : Buffer) → length (take n l) ≤ n
length-take_le zero l = omega arith
length-take_le (suc n) [] = omega arith
length-take_le (suc n) (b ∷ l) = omega (arith, length-take_le n l)

-- A first read that gets less than the header makes the header too short.
header_cut :
    (os : Os) (file : Buffer) → os.read_count 0 12 ≢ 12 → length (read_sync os file 12 0) < 12
unfolding read_sync
header_cut os file cut = elim (dec_le 12 (length file)) [
  | no short ↦
      header_cut_at
        (if min 12 (length file - 0) == 0 then 0 else os.read_count 0 (min 12 (length file - 0)))
        (omega (arith, short))
  | yes long ↦
      let available : min 12 (length file - 0) ≡ 12 = omega (arith, long) in
      let fewer : os.read_count 0 12 < 12 = omega (arith, cut, os.read_le 0 12) in
      subst (λ (k : ℕ). length (take (if k == 0 then 0 else os.read_count 0 k) file) < 12)
        (sym available) (length-take_lt (os.read_count 0 12) fewer)
]
  where
    length-take_lt : (n : ℕ) → n < 12 → length (take n file) < 12
    length-take_lt n h = omega (arith, h, length-take_le n file)

    header_cut_at : (n : ℕ) → length file < 12 → length (take n file) < 12
    header_cut_at n h = omega (
      arith,
      h,
      ap (length {A = ℕ}) (take-append-drop n file),
      length-append {0} (take n file) (drop n file),
    )

open_check_iff :
    (os : Os) (file : Buffer) (format : ℕ)
    → (check_header (read_sync os file 12 0) ≡ ok format)
      ↔ ((os.read_count 0 12 ≡ 12) × IsDatabaseFile file format)
open_check_iff os file format = (
  λ h. elim (ℕ_discrete (os.read_count 0 12) 12) [
    | yes whole ↦ (whole, (check_file_iff os file whole format).0 h)
    | no cut ↦ absurd (too_short _ (header_cut os file cut) h)
  ],
  λ (whole, valid). (check_file_iff os file whole format).1 valid,
)

-- Opening succeeds exactly when the one call that reads the header gets all of its twelve bytes (a
-- call that gets fewer makes the file too short) and the file begins with a header of a supported
-- format; it takes the format from the header, and starts to append at the end of the file.
pub open_storage_iff :
    (os : Os) (file : Buffer) (durability : DurabilityMode) (default : ℕ) (s : FileStorage)
    → (open_storage os (some file) durability default ≡ ok s) ↔ (
        (format : ℕ) × (os.read_count 0 12 ≡ 12)
        × IsDatabaseFile file format
        × (s ≡ opened file file (length file) durability format))
unfolding open_storage open_file
open_storage_iff os file durability default s = (
  λ h.
      let (format, checked, made) = >>=-eq-ok (check_header (read_sync os file 12 0)) _ h in
      let (whole, valid) = (open_check_iff os file format).0 checked in (format, whole, valid, cc),
  λ (format, whole, valid, made).
      ap (λ (r : Result ℕ). r >>= λ f. ok (opened file file (length file) durability f))
        ((open_check_iff os file format).1 (whole, valid))
      ∙ ap ok (sym made),
)

abbrev created_bytes : ℕ → Buffer
created_bytes format = magic_header_bytes ++ (0 ∷ 1 ∷ format ∷ 0 ∷ [])

one_byte : (format : ℕ) → is_supported format ≡ true → format < 256
unfolding is_supported
one_byte format h = ground arith

created :
    (os : Os) (format : ℕ) (durability : DurabilityMode)
    → is_supported format ≡ true
    → os.write_count 0 12 ≡ 12
    → create_file os durability format ≡ ok (opened (created_bytes format) [] 12 durability format)
unfolding create_file write_u8 write_at
created os format durability supported w = rw (lt→ltb format 256 (one_byte format supported)) (
    ap
      (λ (n : ℕ).
        ok (opened (write_at [] 0 (take n (created_bytes format))) [] 12 durability format))
      w)

-- A file that was created with a supported format, where the one call that writes the header takes
-- all of its twelve bytes, is a log without records. Where the one call that reads the header gets
-- all of them, it is one when it is opened again, in any mode and whatever format a new file would
-- get, with the format that it was created with.
pub open_storage_created :
    (os : Os) (format : ℕ) (durability durability' : DurabilityMode) (default : ℕ)
    → is_supported format ≡ true
    → os.write_count 0 12 ≡ 12
    → os.read_count 0 12 ≡ 12
    → (s : FileStorage) × (s' : FileStorage) × (open_storage os none durability format ≡ ok s)
      × (open_storage os (some s.file) durability' default ≡ ok s')
      × HoldsLog s []
      × HoldsLog s' []
      × (s'.serialization_format ≡ format)
unfolding open_storage
open_storage_created os format durability durability' default supported w r =
    let s = opened (created_bytes format) [] 12 durability format in
    let s' = opened (created_bytes format) (created_bytes format) 12 durability' format in
    (
      s,
      s',
      created os format durability supported w,
      (open_storage_iff os (created_bytes format) durability' default s').1
          (format, r, record { minor = 1; rest = []; supported = supported; content = refl }, refl),
      record {
        header = created_bytes format;
        header_size = refl;
        written = tt;
        content = refl;
        offset = refl;
      },
      record {
        header = created_bytes format;
        header_size = refl;
        written = tt;
        content = refl;
        offset = refl;
      },
      refl,
    )

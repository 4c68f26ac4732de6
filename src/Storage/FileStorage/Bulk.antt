-- ===== src/Storage/FileStorage/Bulk.antt =====
-- readBulkRange of storage/file-storage.ts: the records found in one read of a part of the file.
use pocket_db.Prelude.{
  ℕ, zero, suc, ◌+◌, ◌-◌, ◌≤◌, min, ◌≡◌, refl, sym, ap, ◌∙◌, subst, ◌⊎◌, inl, inr, Bool, true,
  false, List, [], ◌∷◌, ◌++◌, append_assoc, arith, ap₂, ltb, leb, if◌then◌else◌, le→ltb, le→leb,
  Bool-cases, length, take, drop, All, length-append, length-drop, length-take_of_le,
  drop-append_length, take-append-drop, ok,
}
use native.Mathlib.Nat.{min-eq_left}
use pocket_db.Storage.Buffers.{Buffer, u32_bytes}
use pocket_db.Storage.OperationRecord.{read_operation_from_buffer}
use pocket_db.Storage.OperationRecord.RoundTrip.{length-frame, read_frame}
use pocket_db.Storage.Os.{Os, read_exact}
use pocket_db.Storage.Os.Exact.{read_exact_lem}
use pocket_db.Storage.FileStorage.{
  FileStorage, offset_range, BulkRange, read_bulk_range, read_operation_at_offset,
}
use pocket_db.Storage.FileStorage.Append.{read_operation_at_offset-frame, header_read, head_field}
use pocket_db.Storage.FileStorage.Replay.Log.{Entry, IsWritableEntry, frame_of, frames, HoldsLog}

-- An entry stands at an offset in the entries that begin at `start`.
abbrev pub Stands : ℕ → List Entry → ℕ → Entry → Type 0
Stands start [] offset e = ⊥
Stands start (first ∷ es) offset e =
    ((offset ≡ start) × (first ≡ e)) ⊎ Stands (start + length (frame_of first)) es offset e

Stands-le :
    (start : ℕ) (es : List Entry) (offset : ℕ) (e : Entry)
    → Stands start es offset e
    → start ≤ offset
Stands-le start [] offset e h = absurd h
Stands-le start (first ∷ es) offset e (inl (at, _)) = omega (arith, at)
Stands-le start (first ∷ es) offset e (inr h) =
    omega (arith, Stands-le (start + length (frame_of first)) es offset e h)

-- The record that begins later ends later.
Stands-end :
    (start : ℕ) (es : List Entry) (o : ℕ) (e : Entry) (o' : ℕ) (e' : Entry)
    → All IsWritableEntry es
    → Stands start es o e
    → Stands start es o' e'
    → o ≤ o'
    → o + length (frame_of e) ≤ o' + length (frame_of e')
Stands-end start [] o e o' e' w h h' le = absurd h
Stands-end start (first ∷ es) o e o' e' w (inl (at, is)) (inl (at', is')) le =
    let same : length (frame_of e) ≡ length (frame_of e') =
      ap (λ (x : Entry). length (frame_of x)) (sym is ∙ is') in
    omega (arith, at, at', same)
Stands-end start (first ∷ es) o e o' e' w (inl (at, is)) (inr h') le =
    let same : length (frame_of first) ≡ length (frame_of e) =
      ap (λ (x : Entry). length (frame_of x)) is in
    omega (arith, at, same, Stands-le (start + length (frame_of first)) es o' e' h')
Stands-end start (first ∷ es) o e o' e' (w, ws) (inr h) (inl (at', is')) le =
    let impossible : ⊥ = omega (
      arith,
      le,
      at',
      length-frame first.identifier first.payload w,
      Stands-le (start + length (frame_of first)) es o e h,
    ) in
    absurd impossible
Stands-end start (first ∷ es) o e o' e' (w, ws) (inr h) (inr h') le =
    Stands-end (start + length (frame_of first)) es o e o' e' ws h h' le

-- What stands before and behind an entry.
record Split (file : Buffer) (offset : ℕ) (e : Entry) : Type 0 where
  before : Buffer
  behind : Buffer
  content : file ≡ before ++ (frame_of e ++ behind)
  place : offset ≡ length before
  writable : IsWritableEntry e

Split-at :
    (front : Buffer) (es : List Entry) (offset : ℕ) (e : Entry)
    → All IsWritableEntry es
    → Stands (length front) es offset e
    → Split (front ++ frames es) offset e
Split-at front [] offset e w h = absurd h
Split-at front (first ∷ es) offset e (w, ws) (inl (at, is)) = record {
  before = front;
  behind = frames es;
  content = ap (λ (x : Entry). front ++ (frame_of x ++ frames es)) is;
  place = at;
  writable = subst IsWritableEntry is w;
}
Split-at front (first ∷ es) offset e (w, ws) (inr h) =
    let later : Stands (length (front ++ frame_of first)) es offset e =
      subst (λ (n : ℕ). Stands n es offset e) (sym (length-append front (frame_of first))) h in
    let s = Split-at (front ++ frame_of first) es offset e ws later in
    record {
      before = s.before;
      behind = s.behind;
      content = sym (append_assoc front (frame_of first) (frames es)) ∙ s.content;
      place = s.place;
      writable = s.writable;
    }

lower_le : (a b : ℕ) → ((if ltb a b then a else b) ≤ a) × ((if ltb a b then a else b) ≤ b)
lower_le a b = ground arith

upper_le : (a b : ℕ) → (a ≤ (if ltb b a then a else b)) × (b ≤ (if ltb b a then a else b))
upper_le a b = ground arith

upper_holds : (P : ℕ → Type 0) (a b : ℕ) → P a → P b → P (if ltb b a then a else b)
upper_holds P a b p q = elim (Bool-cases (ltb b a)) [
  | inl e ↦ subst (λ (c : Bool). P (if c then a else b)) (sym e) p
  | inr e ↦ subst (λ (c : Bool). P (if c then a else b)) (sym e) q
]

-- What the loop over the offsets finds.
offset_range_lem :
    (P : ℕ → Type 0) (offsets : List ℕ) (least greatest : ℕ)
    → least ≤ greatest
    → P greatest
    → All P offsets
    → (l : ℕ) × (g : ℕ) × (offset_range offsets least greatest ≡ (l, g))
      × (l ≤ least)
      × (greatest ≤ g)
      × P g
      × All (λ (o : ℕ). (l ≤ o) × (o ≤ g)) offsets
unfolding offset_range
offset_range_lem P [] least greatest le p ps =
    (least, greatest, refl, omega arith, omega arith, p, tt)
offset_range_lem P (offset ∷ offsets) least greatest le p (q, ps) =
    let (lo, lo') = lower_le offset least in
    let (up, up') = upper_le offset greatest in
    let (l, g, found, below, above, p', inside) =
      offset_range_lem P offsets (if ltb offset least then offset else least)
        (if ltb greatest offset then offset else greatest) (omega (arith, lo, lo', up, up', le))
        (upper_holds P offset greatest q p) ps in
    (
      l,
      g,
      found,
      omega (arith, below, lo'),
      omega (arith, above, up'),
      p',
      ((omega (arith, below, lo), omega (arith, above, up)), inside),
    )

take-append_of_le :
    {A : Type 0} (n : ℕ) (xs ys : List A)
    → length xs ≤ n
    → take n (xs ++ ys) ≡ xs ++ take (n - length xs) ys
take-append_of_le n [] ys h = let same : n ≡ n - 0 = omega arith in ap (λ (k : ℕ). take k ys) same
take-append_of_le zero (x ∷ xs) ys h = let impossible : ⊥ = omega (arith, h) in absurd impossible
take-append_of_le (suc n) (x ∷ xs) ys h =
    let same : n - length xs ≡ suc n - suc (length xs) = omega arith in
    ap (λ l. x ∷ l) (take-append_of_le n xs ys (omega (arith, h)))
    ∙ ap (λ (k : ℕ). x ∷ (xs ++ take k ys)) same

-- A part of a file that reaches over what stands at a place.
part_over :
    (l n : ℕ) (before middle behind : Buffer)
    → l ≤ length before
    → length before + length middle ≤ l + n
    → (tail : Buffer) × (take n (drop l (before ++ (middle ++ behind)))
        ≡ drop l before ++ (middle ++ tail))
part_over l n before middle behind low high =
    let rest = drop l before in
    let taken : length (take l before) ≡ l = length-take_of_le l before low in
    let left : length rest ≡ length before - l = length-drop l before in
    let size : length (rest ++ middle) ≡ length rest + length middle = length-append rest middle in
    let dropped : drop l (before ++ (middle ++ behind)) ≡ (rest ++ middle) ++ behind =
      ap (λ (x : Buffer). drop l (x ++ (middle ++ behind))) (sym (take-append-drop l before))
      ∙ ap (drop l) (append_assoc (take l before) rest (middle ++ behind))
      ∙ ap (λ (k : ℕ). drop k (take l before ++ (rest ++ (middle ++ behind)))) (sym taken)
      ∙ drop-append_length (take l before) (rest ++ (middle ++ behind))
      ∙ sym (append_assoc rest middle behind) in
    let tail = take (n - length (rest ++ middle)) behind in
    (
      tail,
      ap (take n) dropped
          ∙ take-append_of_le n (rest ++ middle) behind (omega (arith, size, left, low, high))
          ∙ append_assoc rest middle tail,
    )

module _ (os : Os) (s : FileStorage) where
  -- The record of an offset is the same in a bulk range and in the file.
  abbrev pub InBulk : BulkRange → ℕ → Type 0
  InBulk range offset =
      (ltb offset range.range_start ≡ false)
      × (read_operation_from_buffer range.buffer (offset - range.range_start)
          ≡ read_operation_at_offset os s offset)

  in_bulk :
      (l n offset : ℕ) (e : Entry)
      → Split s.file offset e
      → l ≤ offset
      → offset + length (frame_of e) ≤ l + n
      → InBulk (record { buffer = take n (drop l s.file); range_start = l }) offset
  in_bulk l n offset e p low high =
      let low' : l ≤ length p.before = omega (arith, low, p.place) in
      let (tail, part) =
        part_over l n p.before (frame_of e) p.behind low' (omega (arith, high, p.place)) in
      let at : offset - l ≡ length (drop l p.before) =
        omega (arith, length-drop l p.before, p.place) in
      (
        le→ltb _ _ low,
        ap₂ read_operation_from_buffer (ap (λ (b : Buffer). take n (drop l b)) p.content ∙ part) at
            ∙ read_frame e.identifier e.payload p.writable (drop l p.before) tail
            ∙ sym (read_operation_at_offset-frame os s e p.before p.behind p.writable p.content)
            ∙ ap (read_operation_at_offset os s) (sym p.place),
      )

  -- In a log, the bulk read of the offsets of some records succeeds, and each of the records is read
  -- from it as from the file.
  pub read_bulk_range_lem :
      {es : List Entry} (first : ℕ) (others : List ℕ)
      → HoldsLog s es
      → All (λ (o : ℕ). (e : Entry) × Stands 12 es o e) (first ∷ others)
      → (range : BulkRange) × (read_bulk_range os s first others ≡ ok range)
        × All (InBulk range) (first ∷ others)
  unfolding read_bulk_range
  read_bulk_range_lem {es} first others log (here, there) =
      let (l, g, found, below, above, (top, stands), inside) =
        offset_range_lem (λ o. (e : Entry) × Stands 12 es o e) (first ∷ others) first first
          (omega arith) here (here, there) in
      let split : (o : ℕ) (e : Entry) → Stands 12 es o e → Split s.file o e = λ o e h.
        subst (λ (file : Buffer). Split file o e) (sym log.content)
          (Split-at log.header es o e log.written
            (subst (λ (n : ℕ). Stands n es o e) (sym log.header_size) h)) in
      let p = split g top stands in
      let long : length s.file ≡ length p.before + (length (frame_of top) + length p.behind) =
        ap length p.content
        ∙ length-append p.before (frame_of top ++ p.behind)
        ∙ ap (λ (n : ℕ). length p.before + n) (length-append (frame_of top) p.behind) in
      let size = length-frame top.identifier top.payload p.writable in
      let end = g + 8 + length top.payload + 4 in
      let bounded : min end s.current_offset ≡ end =
        min-eq_left (omega (arith, long, size, p.place, log.offset)) in
      let header : read_exact os s.file 8 g
          ≡ ok (top.identifier ++ u32_bytes (length top.payload)) =
        ap (read_exact os s.file 8) p.place
        ∙ header_read os s top p.before p.behind p.writable p.content in
      let field = head_field os s top p.before p.behind p.writable p.content in
      let fits : leb (end - l) (length s.file - l) ≡ true =
        le→leb _ _ (omega (arith, long, size, p.place)) in
      let read : read_exact os s.file (end - l) l ≡ ok (take (end - l) (drop l s.file)) =
        read_exact_lem os s.file (end - l) l ∙ rw fits refl in
      let range : BulkRange = record { buffer = take (end - l) (drop l s.file); range_start = l } in
      (
        range,
        rw (found, header, field, bounded, read) refl,
        all_inside range (first ∷ others) (here, there) inside
            (λ o e h low up.
              in_bulk l (end - l) o e (split o e h) low
                (omega (arith, size, low, up, Stands-end 12 es o e g top log.written h stands up))),
      )
    where
      all_inside :
          {l g : ℕ} (range : BulkRange) (offsets : List ℕ)
          → All (λ (o : ℕ). (e : Entry) × Stands 12 es o e) offsets
          → All (λ (o : ℕ). (l ≤ o) × (o ≤ g)) offsets
          → ((o : ℕ) (e : Entry) → Stands 12 es o e → l ≤ o → o ≤ g → InBulk range o)
          → All (InBulk range) offsets
      all_inside range [] a b f = tt
      all_inside range (o ∷ offsets) ((e, h), a) ((low, up), b) f =
          (f o e h low up, all_inside range offsets a b f)

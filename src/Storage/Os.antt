-- ===== src/Storage/Os.antt =====
-- `readExact` and `writeAll` of storage/file-storage.ts, over a file system whose calls may move
-- fewer bytes than asked. A file is the list of its bytes.
pub mod Exact
pub mod Written
use pocket_db.Prelude.{
  ℕ, zero, suc, ◌+◌, ◌-◌, ◌≤◌, ◌<◌, min, [], ◌∷◌, ◌++◌, ltb, ◌==◌, if◌then◌else◌, length, take,
  drop, replicate, Result, end_of_file, stuck, ok, err,
}
use pocket_db.Storage.Buffers.{Buffer}

-- What the code relies on of `readSync` and `writeSync`: asked for `n` bytes that are there, a call at
-- `position` moves at least one of them and at most all. Which number is up to the system.
pub record Os : Type 0 where
  pub read_count : ℕ → ℕ → ℕ
  pub write_count : ℕ → ℕ → ℕ
  pub read_some : (position n : ℕ) → 0 < n → 0 < read_count position n
  pub read_le : (position n : ℕ) → read_count position n ≤ n
  pub write_some : (position n : ℕ) → 0 < n → 0 < write_count position n
  pub write_le : (position n : ℕ) → write_count position n ≤ n

-- `pwrite`: the bytes before `position`, filled up with zeros where the file is shorter, the new
-- bytes, and what stands behind them.
unfoldable pub write_at : Buffer → ℕ → Buffer → Buffer
write_at file position new =
    (take position file ++ replicate (position - length file) 0)
    ++ (new ++ drop (position + length new) file)

module _ (os : Os) where
  -- `readSync`: no byte at the end of the file.
  unfoldable pub read_sync : Buffer → ℕ → ℕ → Buffer
  read_sync file count position =
      let available = min count (length file - position) in
      take (if available == 0 then 0 else os.read_count position available) (drop position file)

  -- The loop of `readExact`, with `bytesRead` the length of what has been read so far.
  pub read_loop : ℕ → Buffer → ℕ → ℕ → Buffer → Result Buffer
  read_loop zero file count position done = if ltb (length done) count then err stuck else ok done
  read_loop (suc fuel) file count position done =
      let current = read_sync file (count - length done) (position + length done) in
      let more = read_loop fuel file count position (done ++ current) in
      if ltb (length done) count
      then (if length current == 0 then err end_of_file else more)
      else ok done

  -- Every round reads a byte at least, so `count` rounds are enough.
  unfoldable pub read_exact : Buffer → ℕ → ℕ → Result Buffer
  unfolding read_loop read_sync
  read_exact file count position = read_loop count file count position []

  -- The loop of `writeAll`, with the bytes still to be written.
  pub write_loop : ℕ → Buffer → Buffer → ℕ → Result Buffer
  write_loop fuel file [] position = ok file
  write_loop zero file (b ∷ bytes) position = err stuck
  write_loop (suc fuel) file (b ∷ bytes) position =
      let n = os.write_count position (length (b ∷ bytes)) in
      write_loop fuel (write_at file position (take n (b ∷ bytes))) (drop n (b ∷ bytes))
        (position + n)

  unfoldable pub write_all : Buffer → Buffer → ℕ → Result Buffer
  unfolding write_loop write_at
  write_all file buffer position = write_loop (length buffer) file buffer position

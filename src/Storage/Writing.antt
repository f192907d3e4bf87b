-- ===== src/Storage/Writing.antt =====
-- `fu_writefile` (libs/LSO_LIB/file_utils.c) on a valid storage.
use lso_baldini.Common.{
  ℕ, ◌+◌, ◌-◌, ◌*◌, ◌^◌, ◌≤◌, ◌<◌, ◌≡◌, ◌≢◌, refl, ap, ◌∙◌, ◌++◌, Option, none, some, arith, pos,
  minus_one, length, take, length-append, length-take, take-length, ◌⊎◌, inl, inr, ℤ, Option-cases,
  le_or_gt,
}
use lso_baldini.CString.{Bytes}
use lso_baldini.HashTable.{hu_foreach}
use lso_baldini.Memory.{max_request}
use lso_baldini.Run.{Run, ret, blocked, exited, fault, Ensures, Ensures_given}
use lso_baldini.Storage.Invariant.{
  IsValid, bytes_of-update, count_of, live, len_at, store-IsValid, len-le-curr_bytes,
}
use lso_baldini.Storage.Lookup.{touched}
use lso_baldini.Storage.{FileData, Storage, store, update, size_add, size_sub, fu_writefile}

-- The file after `bytes` were written at offset `i`: what stood behind `i` is lost.
abbrev pub written : FileData → ℕ → Bytes → FileData
written f i bytes = record (touched f) {
  content = take i f.content ++ bytes;
  data_len = i + length bytes;
}

-- The storage after the write.
abbrev pub rewritten : Storage → ℕ → FileData → ℕ → Bytes → Storage
rewritten s p f i bytes = record s {
  curr_bytes = s.curr_bytes + (i + length bytes) - f.data_len;
  heap = update s.heap p (some (written f i bytes));
}

module _ {s : Storage} (p : ℕ) {f : FileData} (i : ℕ) (bytes : Bytes) (v : IsValid s)
    (here : s.heap p ≡ some f) (filled : 0 < length bytes) (inside : i ≤ f.data_len)
    (small : i + length bytes ≤ max_request) where
  -- A write that fits replaces what follows the offset by the new bytes, and counts the difference.
  pub fu_writefile_fits :
      s.curr_bytes + (i + length bytes) ≤ s.max_bytes + f.data_len
      → fu_writefile s p i (some bytes) (length bytes) ≡ ret (pos 0, rewritten s p f i bytes)
  unfolding fu_writefile
  fu_writefile_fits fits =
      let covered = len-le-curr_bytes p f v here in
      let new : size_add i (length bytes) ≡ i + length bytes = omega (arith, small) in
      let total : size_add s.curr_bytes (size_sub (size_add i (length bytes)) f.data_len)
          ≡ s.curr_bytes + (i + length bytes) - f.data_len =
        omega (arith, new, covered, fits, v.bytes_bound, v.bytes_small) in
      ground (arith, here, take-length bytes, new, total, fits, filled, inside, small, covered)

  pub rewritten-IsValid :
      s.curr_bytes + (i + length bytes) ≤ s.max_bytes + f.data_len
      → IsValid (rewritten s p f i bytes)
  rewritten-IsValid fits =
      let once : count_of p (hu_foreach s.table) ≡ 1 = v.owned p ∙ ap live here in
      let covered = len-le-curr_bytes p f v here in
      let len : length (take i f.content ++ bytes) ≡ i + length bytes = omega (
        arith,
        length-append (take i f.content) bytes,
        length-take i f.content,
        v.sound p f here,
        inside,
      ) in
      record {
        table_IsValid = v.table_IsValid;
        counted = v.counted;
        summed = omega (
          arith,
          bytes_of-update s.heap p (some (written f i bytes)) (hu_foreach s.table),
          ap (λ (n : ℕ). n * len_at (s.heap p)) once,
          ap (λ (n : ℕ). n * (i + length bytes)) once,
          ap len_at here,
          v.summed,
          covered,
        );
        owned = λ q. ground (arith, v.owned q, here);
        files_bound = v.files_bound;
        bytes_bound = omega (arith, fits, covered);
        files_small = v.files_small;
        bytes_small = v.bytes_small;
        sound = λ q g h. ground (arith, v.sound q g, len);
        fresh = λ q h. ground (arith, v.fresh q h, v.fresh p, here);
      }

  -- In a valid storage, a write of at least one byte at an offset inside the file succeeds if the
  -- file can be allocated and the storage's limit is kept: the file then holds what stood before the
  -- offset and the new bytes, no other file changes, the storage is valid, and the bytes counted grow
  -- or shrink as the file does.
  pub fu_writefile_stored :
      s.curr_bytes + (i + length bytes) ≤ s.max_bytes + f.data_len
      → (s' : Storage) × (fu_writefile s p i (some bytes) (length bytes) ≡ ret (pos 0, s'))
        × IsValid s'
        × (s'.heap p ≡ some (written f i bytes))
        × ((q : ℕ) → q ≢ p → s'.heap q ≡ s.heap q)
        × (s'.curr_bytes + f.data_len ≡ s.curr_bytes + (i + length bytes))
        × (s'.curr_files ≡ s.curr_files)
  fu_writefile_stored fits = (
    rewritten s p f i bytes,
    fu_writefile_fits fits,
    rewritten-IsValid fits,
    ground arith,
    λ q n. ground arith,
    omega (arith, len-le-curr_bytes p f v here),
    refl,
  )

  -- In a valid storage, a write of at least one byte at an offset inside the file that could be
  -- allocated but would take the storage over its limit is refused: of the file only `data_info`
  -- changes, which counts the attempt, and nothing else in the storage.
  pub fu_writefile_full :
      s.max_bytes + f.data_len < s.curr_bytes + (i + length bytes)
      → fu_writefile s p i (some bytes) (length bytes) ≡ ret (minus_one, store s p (touched f))
  unfolding fu_writefile
  fu_writefile_full full =
      let covered = len-le-curr_bytes p f v here in
      let new : size_add i (length bytes) ≡ i + length bytes = omega (arith, small) in
      let total : size_add s.curr_bytes (size_sub (size_add i (length bytes)) f.data_len)
          ≡ s.curr_bytes + (i + length bytes) - f.data_len =
        omega (arith, new, covered, v.bytes_bound, v.bytes_small, small) in
      ground (arith, here, new, total, full, filled, inside, covered)

-- A write that would grow the file beyond what can be allocated is refused or ends the process.
fu_writefile_large :
    (s : Storage) (p : ℕ) {f : FileData} (i : ℕ) (bytes : Bytes)
    → s.heap p ≡ some f
    → 0 < length bytes
    → i ≤ f.data_len
    → max_request < i + length bytes
    → i + length bytes < 2 ^ 64
    → Ensures
        (λ (r : ℤ × Storage). r.1 ≡ store s p (touched f))
        (fu_writefile s p i (some bytes) (length bytes))
unfolding fu_writefile
fu_writefile_large s p {f} i bytes here filled inside large bound =
    let new : size_add i (length bytes) ≡ i + length bytes = omega (arith, bound) in
    ground (arith, here, new, filled, inside, large, bound)

-- A write of nothing, behind the end of the file or to what is not allocated.
fu_writefile_refused :
    (s : Storage) (p i : ℕ) (bytes : Bytes) (o : Option FileData)
    → s.heap p ≡ o
    → (length bytes ≡ 0) ⊎ ((o ≡ none) ⊎ (len_at o < i))
    → Ensures (λ (r : ℤ × Storage). r.1 ≡ s) (fu_writefile s p i (some bytes) (length bytes))
unfolding fu_writefile
fu_writefile_refused s p i bytes none e h = ground (arith, e)
fu_writefile_refused s p i bytes (some f) e h = ground (arith, e, h)

keeps_IsValid :
    (t : Storage) (x : Run (ℤ × Storage))
    → Ensures (λ (r : ℤ × Storage). r.1 ≡ t) x
    → IsValid t
    → Ensures (λ (r : ℤ × Storage). IsValid r.1) x
keeps_IsValid t (ret r) e v = rw e v
keeps_IsValid t blocked e v = tt
keeps_IsValid t exited e v = tt
keeps_IsValid t fault e v = tt

-- A write to any address, at any offset, of all bytes of a buffer that can be allocated leaves a
-- valid storage valid wherever it returns, whether it succeeds or is refused.
pub fu_writefile-IsValid :
    (s : Storage) (p i : ℕ) (bytes : Bytes)
    → length bytes ≤ max_request
    → Ensures
        (λ (r : ℤ × Storage). IsValid s → IsValid r.1)
        (fu_writefile s p i (some bytes) (length bytes))
fu_writefile-IsValid s p i bytes small =
    Ensures_given (λ (r : ℤ × Storage). IsValid r.1)
      (fu_writefile s p i (some bytes) (length bytes))
      λ v. elim (Option-cases (s.heap p)) [
        | inl gone ↦
            keeps_IsValid s (fu_writefile s p i (some bytes) (length bytes))
              (fu_writefile_refused s p i bytes none gone (inr (inl refl))) v
        | inr (f, e) ↦ stored f e v
      ]
  where
    stored :
        (f : FileData)
        → s.heap p ≡ some f
        → IsValid s
        → Ensures
            (λ (r : ℤ × Storage). IsValid r.1)
            (fu_writefile s p i (some bytes) (length bytes))
    stored f e v =
        let n = length bytes in
        let marked = store-IsValid p f (touched f) v e refl refl in
        elim (le_or_gt n 0) [
          | inl empty ↦
              keeps_IsValid s (fu_writefile s p i (some bytes) (length bytes))
                (fu_writefile_refused s p i bytes (some f) e (inl (omega (arith, empty)))) v
          | inr filled ↦ elim (le_or_gt i f.data_len) [
            | inr behind ↦
                keeps_IsValid s (fu_writefile s p i (some bytes) (length bytes))
                  (fu_writefile_refused s p i bytes (some f) e (inr (inr behind))) v
            | inl inside ↦ elim (le_or_gt (i + n) max_request) [
              | inr large ↦
                  keeps_IsValid (store s p (touched f))
                    (fu_writefile s p i (some bytes) (length bytes))
                    (fu_writefile_large s p i bytes e filled inside large (
                      omega (
                        arith,
                        inside,
                        small,
                        len-le-curr_bytes p f v e,
                        v.bytes_bound,
                        v.bytes_small,
                      )))
                    marked
              | inl fine ↦ elim (le_or_gt (s.curr_bytes + (i + n)) (s.max_bytes + f.data_len)) [
                | inl fits ↦
                    rw (fu_writefile_fits p i bytes v e filled inside fine fits)
                      (rewritten-IsValid p i bytes v e filled inside fine fits)
                | inr full ↦ rw (fu_writefile_full p i bytes v e filled inside fine full) marked
              ]
            ]
          ]
        ]

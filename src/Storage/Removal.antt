-- ===== src/Storage/Removal.antt =====
-- `fu_remove_file` (libs/LSO_LIB/file_utils.c) on a valid storage.
use lso_baldini.Common.{
  ℕ, ◌+◌, ◌*◌, ◌≡◌, ◌≢◌, ap, inl, inr, none, some, arith, Option-cases, pos, ==_refl, ℤ, minus_one,
}
use lso_baldini.CString.{Bytes}
use lso_baldini.HashTable.Deletion.{hu_remove-get, hu_remove-IsValid}
use lso_baldini.HashTable.Totals.{sum_by-remove}
use lso_baldini.HashTable.{Table, hu_get, hu_remove, hu_foreach}
use lso_baldini.Run.{ret, Ensures, Ensures_given}
use lso_baldini.Storage.Invariant.{IsValid, bytes_of-update, count_of, occurs, live, len_at}
use lso_baldini.Storage.Lookup.{touched, fu_getfile_found}
use lso_baldini.Storage.PathKey.{path_key}
use lso_baldini.Storage.{FileData, Storage, store, update, size_sub, fu_remove_file}

-- The storage without the file at `p`, of which `t` is the table.
abbrev pub without : Storage → ℕ → FileData → Table Bytes ℕ → Storage
without s p f t = record s {
  table = t;
  heap = update s.heap p none;
  curr_files = size_sub s.curr_files 1;
  curr_bytes = size_sub s.curr_bytes f.data_len;
}

pub without-IsValid :
    {s : Storage} (path : Bytes) (e : Bytes × ℕ) (f : FileData) (t : Table Bytes ℕ)
    → IsValid s
    → s.heap e.1 ≡ some f
    → hu_remove s.table path ≡ some (e, t)
    → IsValid (without s e.1 f t)
      × (size_sub s.curr_files 1 + 1 ≡ s.curr_files)
      × (size_sub s.curr_bytes f.data_len + f.data_len ≡ s.curr_bytes)
without-IsValid {s} path e f t v live_file gone =
    let files = sum_by-remove (λ _. 1) path v.table_IsValid gone in
    let bytes = sum_by-remove (λ (x : Bytes × ℕ). len_at (s.heap x.1)) path v.table_IsValid gone in
    let own = sum_by-remove (occurs e.1) path v.table_IsValid gone in
    let once : occurs e.1 e ≡ 1 = rw (==_refl e.1) in
    let len : len_at (s.heap e.1) ≡ f.data_len = ap len_at live_file in
    let alone : count_of e.1 (hu_foreach t) ≡ 0 =
      omega (arith, own, once, v.owned e.1, ap live live_file) in
    let less_files : size_sub s.curr_files 1 + 1 ≡ s.curr_files =
      omega (arith, files, v.counted, v.files_bound, v.files_small) in
    let less_bytes : size_sub s.curr_bytes f.data_len + f.data_len ≡ s.curr_bytes =
      omega (arith, bytes, len, v.summed, v.bytes_bound, v.bytes_small) in
    (
      record {
        table_IsValid = hu_remove-IsValid path v.table_IsValid gone;
        counted = omega (arith, files, v.counted, less_files);
        summed = omega (
          arith,
          bytes_of-update s.heap e.1 none (hu_foreach t),
          ap (λ (n : ℕ). n * len_at (s.heap e.1)) alone,
          bytes,
          len,
          v.summed,
          less_bytes,
        );
        owned = λ q.
            ground (arith, sum_by-remove (occurs q) path v.table_IsValid gone, v.owned q, alone);
        files_bound = omega (arith, v.files_bound, less_files);
        bytes_bound = omega (arith, v.bytes_bound, less_bytes);
        files_small = v.files_small;
        bytes_small = v.bytes_small;
        sound = λ q g h. ground (arith, v.sound q g);
        fresh = λ q h. ground (arith, v.fresh q h);
      },
      less_files,
      less_bytes,
    )

-- In a valid storage, the removal of a path that the table leads to a file for returns success and
-- leaves a valid storage in which that file is freed, every other is as it was, and its slot and
-- its bytes are given back.
pub fu_remove_file_found :
    {s : Storage} (path : Bytes) {p : ℕ}
    → IsValid s
    → hu_get s.table path ≡ some p
    → (f : FileData) × (s' : Storage) × (s.heap p ≡ some f)
      × (fu_remove_file s path ≡ ret (pos 0, s'))
      × IsValid s'
      × (s'.heap p ≡ none)
      × ((q : ℕ) → q ≢ p → s'.heap q ≡ s.heap q)
      × (s'.curr_files + 1 ≡ s.curr_files)
      × (s'.curr_bytes + f.data_len ≡ s.curr_bytes)
unfolding fu_remove_file
fu_remove_file_found {s} path {p} v found =
    let (f, e, got, v₁) = fu_getfile_found path v found in
    let (x, t, gone, same) = hu_remove-get path v.table_IsValid found in
    let s₁ = store s p (touched f) in
    let here : s₁.heap x.1 ≡ some (touched f) = ground arith in
    let (v₂, files, bytes) = without-IsValid path x (touched f) t v₁ here gone in
    (
      f,
      without s₁ x.1 (touched f) t,
      e,
      ground arith,
      v₂,
      ground arith,
      λ q n. ground arith,
      files,
      bytes,
    )

pub fu_remove_file_missing :
    (s : Storage) (path : Bytes)
    → hu_get s.table path ≡ none
    → fu_remove_file s path ≡ ret (minus_one, s)
unfolding fu_remove_file
fu_remove_file_missing s path miss = ground arith

-- A removal keeps the storage valid, whether the path is stored or not.
pub fu_remove_file-IsValid :
    (s : Storage) (path : Bytes)
    → Ensures (λ (r : ℤ × Storage). IsValid s → IsValid r.1) (fu_remove_file s path)
fu_remove_file-IsValid s path =
    Ensures_given (λ (r : ℤ × Storage). IsValid r.1) (fu_remove_file s path)
      λ v. elim (Option-cases (hu_get s.table path)) [
        | inl miss ↦ rw (fu_remove_file_missing s path miss) v
        | inr (p, found) ↦ let r = fu_remove_file_found path v found in rw r.3 r.4
      ]

-- ===== src/Storage/Addition.antt =====
-- `fu_alloc_file_data` and `fu_add_file` (libs/LSO_LIB/file_utils.c): from a new file that is in no
-- table yet to a stored one.
use lso_baldini.Common.{
  ℕ, ◌+◌, ◌*◌, ◌^◌, ◌≤◌, ◌<◌, ◌≡◌, ◌≢◌, refl, ap, ◌∙◌, [], none, some, arith, pos, false, length,
  minus_one, Bool,
}
use lso_baldini.CString.{Bytes}
use lso_baldini.HashTable.Laws as Laws
use lso_baldini.HashTable.Totals.{sum_by, sum_by-insert}
use lso_baldini.HashTable.{hu_insert, hu_get, hu_foreach}
use lso_baldini.Run.{ret}
use lso_baldini.Storage.Invariant.{
  IsValid, bytes_of, bytes_of-update, count_of, occurs, live, len_at,
}
use lso_baldini.Storage.PathKey.{path_key}
use lso_baldini.Storage.{
  FileData, Storage, store, update, size_add, fu_alloc_file_data, fu_add_file,
}

-- A valid storage but for the new file `f` at `p`.
pub record IsPending (s : Storage) (p : ℕ) (f : FileData) : Type 0 where
  pub table_IsValid : Laws.IsValid s.table
  pub counted : sum_by (λ e. 1) (hu_foreach s.table) ≡ s.curr_files
  pub summed : bytes_of s.heap (hu_foreach s.table) ≡ s.curr_bytes
  pub absent : count_of p (hu_foreach s.table) ≡ 0
  pub owned : (q : ℕ) → q ≢ p → count_of q (hu_foreach s.table) ≡ live (s.heap q)
  pub files_bound : s.curr_files ≤ s.max_files
  pub bytes_bound : s.curr_bytes ≤ s.max_bytes
  pub files_small : s.max_files < 2 ^ 32
  pub bytes_small : s.max_bytes < 2 ^ 32
  pub sound : (q : ℕ) (g : FileData) → s.heap q ≡ some g → length g.content ≡ g.data_len
  pub fresh : (q : ℕ) → s.next ≤ q → s.heap q ≡ none
  pub here : s.heap p ≡ some f
  pub empty : f.data_len ≡ 0

abbrev pub new_file : FileData
new_file = record {
  content = [];
  data_len = 0;
  client = minus_one;
  data_info = 0;
  locked = false;
  path = none;
}

pub alloc-IsPending :
    {s : Storage} → IsValid s → let (p, s') = fu_alloc_file_data s in IsPending s' p new_file
unfolding fu_alloc_file_data
alloc-IsPending {s} v =
    let gone : s.heap s.next ≡ none = v.fresh s.next (omega arith) in
    let absent : count_of s.next (hu_foreach s.table) ≡ 0 = v.owned s.next ∙ ap live gone in
    record {
      table_IsValid = v.table_IsValid;
      counted = v.counted;
      summed = omega (
        arith,
        bytes_of-update s.heap s.next (some new_file) (hu_foreach s.table),
        ap (λ (n : ℕ). n * len_at (s.heap s.next)) absent,
        v.summed,
      );
      absent = absent;
      owned = λ q n. ground (arith, v.owned q);
      files_bound = v.files_bound;
      bytes_bound = v.bytes_bound;
      files_small = v.files_small;
      bytes_small = v.bytes_small;
      sound = λ q g h. ground (arith, v.sound q g);
      fresh = λ q h. ground (arith, v.fresh q);
      here = ground arith;
      empty = refl;
    }

-- Other fields of the new file may change.
pub store-IsPending :
    {s : Storage} (p : ℕ) (f f' : FileData)
    → IsPending s p f
    → f'.data_len ≡ f.data_len
    → f'.content ≡ f.content
    → IsPending (store s p f') p f'
store-IsPending {s} p f f' v len same = record {
  table_IsValid = v.table_IsValid;
  counted = v.counted;
  summed = omega (
    arith,
    bytes_of-update s.heap p (some f') (hu_foreach s.table),
    ap (λ (n : ℕ). n * len_at (s.heap p)) v.absent,
    ap (λ (n : ℕ). n * f'.data_len) v.absent,
    v.summed,
  );
  absent = v.absent;
  owned = λ q n. ground (arith, v.owned q n);
  files_bound = v.files_bound;
  bytes_bound = v.bytes_bound;
  files_small = v.files_small;
  bytes_small = v.bytes_small;
  sound = λ q g h. ground (arith, v.sound p f v.here, v.sound q g, ap length same);
  fresh = λ q h. ground (arith, v.fresh q h, v.fresh p, v.here);
  here = ground arith;
  empty = len ∙ v.empty;
}

-- The storage with the new file under `path`.
abbrev pub with_file : Storage → ℕ → FileData → Bytes → Storage
with_file s p f path = record s {
  heap = update s.heap p (some (record f { path = some path }));
  table = hu_insert s.table path p;
  curr_files = size_add s.curr_files 1;
  curr_bytes = size_add s.curr_bytes f.data_len;
}

module _ {s : Storage} (p : ℕ) {f : FileData} (path : Bytes) (v : IsPending s p f)
    (room : s.curr_files < s.max_files) where
  -- With a slot left a new file is stored, and cannot be refused.
  pub fu_add_file_lem : fu_add_file s p path ≡ ret (pos 0, with_file s p f path)
  unfolding fu_add_file
  fu_add_file_lem = ground (arith, v.here, v.files_bound, v.files_small, v.empty)

  pub with_file-IsValid : IsValid (with_file s p f path)
  with_file-IsValid =
      let g : FileData = record f { path = some path } in
      let new_table =
        sum_by-insert (λ (x : Bytes × ℕ). len_at (update s.heap p (some g) x.1)) path p
          v.table_IsValid in
      let here : len_at (update s.heap p (some g) p) ≡ 0 = ground (arith, v.empty) in
      record {
        table_IsValid = Laws.hu_insert-IsValid path p v.table_IsValid;
        counted =
            omega (
              arith,
              sum_by-insert (λ _. 1) path p v.table_IsValid,
              v.counted,
              v.files_small,
              room,
            );
        summed = omega (
          arith,
          new_table,
          here,
          bytes_of-update s.heap p (some g) (hu_foreach s.table),
          ap (λ (n : ℕ). n * len_at (s.heap p)) v.absent,
          ap (λ (n : ℕ). n * f.data_len) v.absent,
          v.summed,
          v.bytes_bound,
          v.bytes_small,
          v.empty,
        );
        owned = λ q.
            ground (arith, sum_by-insert (occurs q) path p v.table_IsValid, v.absent, v.owned q);
        files_bound = omega (arith, v.files_small, room);
        bytes_bound = omega (arith, v.bytes_bound, v.bytes_small, v.empty);
        files_small = v.files_small;
        bytes_small = v.bytes_small;
        sound = λ q g h. ground (arith, v.sound p f v.here, v.sound q g);
        fresh = λ q h. ground (arith, v.fresh q h, v.fresh p, v.here);
      }

  -- With a slot left a new file, empty and in no table yet, is stored: `fu_add_file` succeeds, the
  -- storage is valid, the path leads to the file, which is as it was but for its path, no other file
  -- changes, and one more file but no more bytes are counted.
  pub fu_add_file_stored :
      (s' : Storage) × (fu_add_file s p path ≡ ret (pos 0, s'))
      × IsValid s'
      × (hu_get s'.table path ≡ some p)
      × (s'.heap p ≡ some (record f { path = some path }))
      × ((q : ℕ) → q ≢ p → s'.heap q ≡ s.heap q)
      × (s'.curr_files ≡ s.curr_files + 1)
      × (s'.curr_bytes ≡ s.curr_bytes)
  fu_add_file_stored = (
    with_file s p f path,
    fu_add_file_lem,
    with_file-IsValid,
    Laws.hu_get-insert_self path p v.table_IsValid,
    ground arith,
    λ q n. ground arith,
    omega (arith, v.files_bound, v.files_small, room),
    omega (arith, v.bytes_bound, v.bytes_small, v.empty),
  )

-- A new file that is freed again leaves a valid storage.
pub discard-IsValid :
    {s : Storage} (p : ℕ) {f : FileData}
    → IsPending s p f
    → IsValid (record s { heap = update s.heap p none })
discard-IsValid {s} p {f} v = record {
  table_IsValid = v.table_IsValid;
  counted = v.counted;
  summed = omega (
    arith,
    bytes_of-update s.heap p none (hu_foreach s.table),
    ap (λ (n : ℕ). n * len_at (s.heap p)) v.absent,
    v.summed,
  );
  owned = λ q. ground (arith, v.owned q, v.absent);
  files_bound = v.files_bound;
  bytes_bound = v.bytes_bound;
  files_small = v.files_small;
  bytes_small = v.bytes_small;
  sound = λ q g h. ground (arith, v.sound q g);
  fresh = λ q h. ground (arith, v.fresh q h);
}

pub flag-IsPending :
    {s : Storage} (p : ℕ) {f : FileData} (b : Bool)
    → IsPending s p f
    → IsPending (record s { locked = b }) p f
flag-IsPending p b v = record {
  table_IsValid = v.table_IsValid;
  counted = v.counted;
  summed = v.summed;
  absent = v.absent;
  owned = v.owned;
  files_bound = v.files_bound;
  bytes_bound = v.bytes_bound;
  files_small = v.files_small;
  bytes_small = v.bytes_small;
  sound = v.sound;
  fresh = v.fresh;
  here = v.here;
  empty = v.empty;
}

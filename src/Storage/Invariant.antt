-- ===== src/Storage/Invariant.antt =====
-- The invariant of the file storage (libs/LSO_LIB/file_utils.c): the counters agree with the files
-- in the table, within the limits that it was created with.
use lso_baldini.Common.{
  ℕ, ◌+◌, ◌*◌, ◌^◌, ◌≤◌, ◌<◌, ◌≡◌, ap, ◌∙◌, [], ◌∷◌, Bool, Option, none, some, ◌==◌, if◌then◌else◌,
  length, arith, Bool-cases, inl, inr, ==_iff,
}
use lso_baldini.CString.{Bytes}
use lso_baldini.HashTable.{Chain, hu_foreach}
use lso_baldini.HashTable.Laws as Laws
use lso_baldini.HashTable.Totals.{sum_by}
use lso_baldini.Storage.PathKey.{path_key}
use lso_baldini.Storage.{FileData, Heap, update, Storage, store}

-- 1 if the address is allocated.
abbrev pub live : Option FileData → ℕ
live none = 0
live (some f) = 1

abbrev pub len_at : Option FileData → ℕ
len_at none = 0
len_at (some f) = f.data_len

abbrev pub occurs : ℕ → Bytes × ℕ → ℕ
occurs p e = if e.1 == p then 1 else 0

abbrev pub count_of : ℕ → Chain Bytes ℕ → ℕ
count_of p c = sum_by (occurs p) c

abbrev pub bytes_of : Heap → Chain Bytes ℕ → ℕ
bytes_of h c = sum_by (λ e. len_at (h e.1)) c

-- The limits come from fields of `server_settings` of type `unsigned int`.
-- `owned`: the table holds each allocated file once, and no address that is not allocated.
pub record IsValid (s : Storage) : Type 0 where
  pub table_IsValid : Laws.IsValid s.table
  pub counted : sum_by (λ e. 1) (hu_foreach s.table) ≡ s.curr_files
  pub summed : bytes_of s.heap (hu_foreach s.table) ≡ s.curr_bytes
  pub owned : (p : ℕ) → count_of p (hu_foreach s.table) ≡ live (s.heap p)
  pub files_bound : s.curr_files ≤ s.max_files
  pub bytes_bound : s.curr_bytes ≤ s.max_bytes
  pub files_small : s.max_files < 2 ^ 32
  pub bytes_small : s.max_bytes < 2 ^ 32
  pub sound : (p : ℕ) (f : FileData) → s.heap p ≡ some f → length f.content ≡ f.data_len
  pub fresh : (p : ℕ) → s.next ≤ p → s.heap p ≡ none

pub bytes_of-update :
    (h : Heap) (p : ℕ) (v : Option FileData) (c : Chain Bytes ℕ)
    → bytes_of (update h p v) c + count_of p c * len_at (h p)
      ≡ bytes_of h c + count_of p c * len_at v
bytes_of-update h p v [] = omega arith
bytes_of-update h p v (e ∷ c) = elim (Bool-cases (e.1 == p)) [
  | inl same ↦
      let once : occurs p e ≡ 1 = rw same in
      let new : len_at (update h p v e.1) ≡ len_at v = ground (arith, (==_iff e.1 p).0 same) in
      omega (
        arith,
        bytes_of-update h p v c,
        new,
        ap (λ q. len_at (h q)) ((==_iff e.1 p).0 same),
        ap (λ (t : ℕ). t * len_at (h p)) once,
        ap (λ (t : ℕ). t * len_at v) once,
      )
  | inr other ↦ ground (arith, bytes_of-update h p v c)
]

-- A change of a file's other fields.
pub store-IsValid :
    {s : Storage} (p : ℕ) (f f' : FileData)
    → IsValid s
    → s.heap p ≡ some f
    → f'.data_len ≡ f.data_len
    → f'.content ≡ f.content
    → IsValid (store s p f')
store-IsValid {s} p f f' v e len same = record {
  table_IsValid = v.table_IsValid;
  counted = v.counted;
  summed = ground (arith, bytes_of-update s.heap p (some f') (hu_foreach s.table), v.summed, e);
  owned = λ q. ground (arith, v.owned q, e);
  files_bound = v.files_bound;
  bytes_bound = v.bytes_bound;
  files_small = v.files_small;
  bytes_small = v.bytes_small;
  sound = λ q g h. ground (arith, v.sound p f e, v.sound q g, ap length same);
  fresh = λ q h. ground (arith, v.fresh q h, v.fresh p, e);
}

-- The bytes of an allocated file are counted.
pub len-le-curr_bytes :
    {s : Storage} (p : ℕ) (f : FileData) → IsValid s → s.heap p ≡ some f → f.data_len ≤ s.curr_bytes
len-le-curr_bytes {s} p f v e =
    let c = hu_foreach s.table in
    let once : count_of p c ≡ 1 = v.owned p ∙ ap live e in
    omega (
      arith,
      bytes_of-update s.heap p none c,
      ap (λ (n : ℕ). n * len_at (s.heap p)) once,
      ap len_at e,
      v.summed,
    )

pub flag-IsValid : {s : Storage} (b : Bool) → IsValid s → IsValid (record s { locked = b })
flag-IsValid b v = record {
  table_IsValid = v.table_IsValid;
  counted = v.counted;
  summed = v.summed;
  owned = v.owned;
  files_bound = v.files_bound;
  bytes_bound = v.bytes_bound;
  files_small = v.files_small;
  bytes_small = v.bytes_small;
  sound = v.sound;
  fresh = v.fresh;
}

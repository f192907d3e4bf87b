-- ===== src/Server/Isolation/Calls.antt =====
-- The calls on the storage (libs/LSO_LIB/file_utils.c) that a handler makes, and the files that other
-- clients own after them.
use lso_baldini.CString.{Bytes}
use lso_baldini.Common.{
  ℕ, ◌≡◌, refl, ◌++◌, Bool, true, false, Option, none, some, if◌then◌else◌, ◌==◌, pos, negsuc,
  minus_one, ℤ, ap, inl, inr, ◌⊎◌, ◌∙◌, take, ltb, Option-cases,
}
use lso_baldini.HashTable.{Table, hu_get, hu_remove}
use lso_baldini.Memory.{Allocation, exits, null, block, mu_realloc}
use lso_baldini.Run.{
  Run, ret, blocked, exited, fault, deref, Ensures, Ensures-bind, ◌>>=◌ as bind_run,
}
use lso_baldini.Storage.{
  FileData, Storage, store, update, fu_writefile, resize_and_copy, fu_remove_file, fu_getfile,
  fu_free_file_data, fu_add_file, fu_storage_bytes_available, fu_storage_files_available, size_sub,
  size_add, uint_add,
}
use lso_baldini.Storage.PathKey.{path_key}
use lso_baldini.Server.Requests.{getfile_outcome}
use lso_baldini.Server.Isolation.{
  Isolates, isolates_refl, isolates_trans, isolates_change, isolates_put, isolates_free,
  isolates_stable,
}

deref_outcome :
    {A B : Type 0} (P : B → Type 0) (o : Option A) (k : A → Run B)
    → ((a : A) → o ≡ some a → Ensures P (k a))
    → Ensures P (bind_run (deref o) k)
deref_outcome P none k h = tt
deref_outcome P (some a) k h = h a refl

Ensures_if :
    {B : Type 0} (P : B → Type 0) (b : Bool) (x y : Run B)
    → Ensures P x
    → Ensures P y
    → Ensures P (if b then x else y)
Ensures_if P true x y h k = h
Ensures_if P false x y h k = k

Ensures_allocated :
    {B : Type 0} (P : B → Type 0) (a : Allocation) (r : B)
    → P r
    → Ensures P (elim a [ exits ↦ exited | _ ↦ ret r ])
Ensures_allocated P exits r h = tt
Ensures_allocated P null r h = h
Ensures_allocated P block r h = h

module _ (client : ℕ) where
  pub fu_getfile-Isolates :
      (s : Storage) (path : Bytes)
      → Ensures (λ (r : Option ℕ × Storage). Isolates client s r.1) (fu_getfile s path)
  unfolding fu_getfile
  fu_getfile-Isolates s path = getfile_outcome (Isolates client) s (hu_get s.table path)

  pub fu_free_file_data-Isolates :
      (s : Storage) (p : ℕ) → Ensures (Isolates client s) (fu_free_file_data s p)
  unfolding fu_free_file_data
  fu_free_file_data-Isolates s p =
      deref_outcome (Isolates client s) (s.heap p) _ λ f e. isolates_free client s p

  remove_outcome :
      (t : Storage) (f : FileData) (o : Option ((Bytes × ℕ) × Table Bytes ℕ))
      → Ensures
          (λ (r : ℤ × Storage). Isolates client t r.1)
          (elim o [
            | none ↦ ret (minus_one, t)
            | some (e, u) ↦ bind_run (fu_free_file_data (record t { table = u }) e.1) (λ s₂. ret (
              pos 0,
              record s₂ {
                curr_files = size_sub s₂.curr_files 1;
                curr_bytes = size_sub s₂.curr_bytes f.data_len;
              },
            ))
          ])
  remove_outcome t f none = isolates_refl client t
  remove_outcome t f (some (e, u)) =
      Ensures-bind (Isolates client t) (λ (r : ℤ × Storage). Isolates client t r.1)
        (fu_free_file_data (record t { table = u }) e.1) _
        (fu_free_file_data-Isolates (record t { table = u }) e.1) (λ s₂ i. i)

  weaken :
      {A : Type 0} (s t : Storage) (x : Run (A × Storage))
      → Isolates client s t
      → Ensures (λ (r : A × Storage). Isolates client t r.1) x
      → Ensures (λ (r : A × Storage). Isolates client s r.1) x
  weaken s t (ret r) i h = isolates_trans client s t r.1 i h
  weaken s t blocked i h = tt
  weaken s t exited i h = tt
  weaken s t fault i h = tt

  pub fu_remove_file-Isolates :
      (s : Storage) (path : Bytes)
      → Ensures (λ (r : ℤ × Storage). Isolates client s r.1) (fu_remove_file s path)
  unfolding fu_remove_file
  fu_remove_file-Isolates s path = elim (Option-cases (hu_get s.table path)) [
    | inl miss ↦ rw (miss, fu_remove_file) (isolates_refl client s)
    | inr (x, found) ↦
        rw (found, fu_remove_file)
          (Ensures-bind (λ (r : Option ℕ × Storage). Isolates client s r.1)
            (λ (r : ℤ × Storage). Isolates client s r.1) (fu_getfile s path) _
            (fu_getfile-Isolates s path)
            λ r i. weaken s r.1 _ i (
              deref_outcome (λ (r' : ℤ × Storage). Isolates client r.1 r'.1) r.0 _
                λ p _.
                  deref_outcome (λ (r' : ℤ × Storage). Isolates client r.1 r'.1) (r.1.heap p) _
                    λ f _. remove_outcome r.1 f (hu_remove r.1.table path)))
  ]

  -- A file that no other client owns may be written to.
  abbrev pub Unshared : Storage → ℕ → Type 0
  Unshared s p = (f : FileData) (d : ℕ) → s.heap p ≡ some f → f.client ≡ pos d → d ≡ client

  owner_cases :
      (s : Storage) (p : ℕ) (f : FileData)
      → s.heap p ≡ some f
      → Unshared s p
      → (f.client ≡ pos client) ⊎ ((n : ℕ) × (f.client ≡ negsuc n))
  owner_cases s p f e own = go f.client refl
    where
      go : (c : ℤ) → f.client ≡ c → (f.client ≡ pos client) ⊎ ((n : ℕ) × (f.client ≡ negsuc n))
      go (pos d) h = inl (h ∙ ap pos (own f d e h))
      go (negsuc n) h = inr (n, h)

  resize-Isolates :
      (s : Storage) (p : ℕ) (f : FileData) (i : ℕ) (bytes : Bytes) (data_len : ℕ)
      → (f.client ≡ pos client) ⊎ ((n : ℕ) × (f.client ≡ negsuc n))
      → Ensures
          (λ (r : ℤ × Storage). Isolates client s r.1)
          (resize_and_copy s p f i bytes data_len)
  unfolding resize_and_copy
  resize-Isolates s p f i bytes data_len own =
      let P = λ (r : ℤ × Storage). Isolates client s r.1 in
      let new_size = size_add i data_len in
      let delta = size_sub new_size f.data_len in
      let g : FileData = record f {
        content = take i f.content ++ take data_len bytes;
        data_len = new_size;
      } in
      let s' : Storage = record s {
        curr_bytes = size_add s.curr_bytes delta;
        heap = update s.heap p (some g);
      } in
      Ensures_if P (ltb s.max_bytes (size_add s.curr_bytes delta)) (ret (minus_one, store s p f)) _
        (isolates_put client s p f own)
        (Ensures_allocated P (mu_realloc new_size) (pos 0, s') (isolates_put client s p g own))

  pub fu_writefile-Isolates :
      (s : Storage) (p i : ℕ) (buffer : Option Bytes) (data_len : ℕ)
      → Unshared s p
      → Ensures (λ (r : ℤ × Storage). Isolates client s r.1) (fu_writefile s p i buffer data_len)
  unfolding fu_writefile
  fu_writefile-Isolates s p i none data_len own = isolates_refl client s
  fu_writefile-Isolates s p i (some bytes) data_len own =
      let P = λ (r : ℤ × Storage). Isolates client s r.1 in
      Ensures_if P (data_len == 0) _ _ (isolates_refl client s) (
        deref_outcome P (s.heap p) _ λ f e.
          Ensures_if P (ltb f.data_len i) _ _ (isolates_refl client s) (
            resize-Isolates s p (record f { data_info = uint_add f.data_info 1 }) i bytes data_len
              (owner_cases s p f e own)))

  pub fu_add_file-Isolates :
      (s : Storage) (p : ℕ) (path : Bytes)
      → Ensures (λ (r : ℤ × Storage). Isolates client s r.1) (fu_add_file s p path)
  unfolding fu_add_file
  fu_add_file-Isolates s p path =
      let P = λ (r : ℤ × Storage). Isolates client s r.1 in
      let failed : Ensures P (bind_run (fu_free_file_data s p) (λ s'. ret (minus_one, s'))) =
        Ensures-bind (Isolates client s) P (fu_free_file_data s p) _
          (fu_free_file_data-Isolates s p) (λ s' i. i) in
      Ensures_if P (fu_storage_files_available s == 0) _ _ failed (
        deref_outcome P (s.heap p) _ λ f e.
          Ensures_if P (ltb (fu_storage_bytes_available s) f.data_len) _ _ failed
            (isolates_change client s p f (record f { path = some path }) e refl refl))

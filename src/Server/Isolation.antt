-- ===== src/Server/Isolation.antt =====
-- A request to the server (src/server.c) and the files that other clients own after it: the relation
-- between storages, and the changes that keep it.
pub mod Calls
pub mod Requests
use lso_baldini.CString.{Bytes}
use lso_baldini.Common.{
  ℕ, ◌+◌, ◌-◌, ◌<◌, ◌≤◌, ◌≡◌, ◌≢◌, refl, List, [], ◌∷◌, ◌++◌, Bool, true, false, Bool-cases, Option,
  none, some, if◌then◌else◌, ◌||◌, ◌==◌, ==_iff, not, pos, negsuc, minus_one, ℤ, eq_ℤ, eq_ℤ_sound,
  arith, ap, sym, inl, inr, ◌⊎◌, ◌∙◌, length, take, replicate, is_zero, ltb,
}
use lso_baldini.HashTable.{hu_get, hu_remove}
use lso_baldini.Memory.{Allocation, exits, null, block, mu_calloc, mu_realloc}
use lso_baldini.Message.{sapi_success, sapi_failure, locks}
use lso_baldini.Run.{
  Run, ret, blocked, exited, fault, deref, Ensures, Ensures-bind, ◌>>=◌ as bind_run,
}
use lso_baldini.Storage.{
  FileData, Storage, store, update, fu_writefile, resize_and_copy, fu_remove_file, fu_getfile,
  fu_free_file_data, fu_add_file, fu_storage_bytes_available, fu_storage_files_available,
  fu_alloc_file_data,
}
use lso_baldini.Server.Keeps.Mutexes.{Stable}
use lso_baldini.Server.Keeps.{Order}

-- Every file that another client than `client` owns after was its file before, with the same content.
abbrev pub Isolates : ℕ → Storage → Storage → Type 0
Isolates client s t =
    (p d : ℕ) (f : FileData)
    → d ≢ client
    → t.heap p ≡ some f
    → f.client ≡ pos d
    → (g : FileData) × (s.heap p ≡ some g) × (g.client ≡ pos d) × (g.content ≡ f.content)

module _ (client : ℕ) where
  pub isolates_refl : (s : Storage) → Isolates client s s
  isolates_refl s p d f n e own = (f, e, own, refl)

  pub isolates_trans :
      (s t u : Storage) → Isolates client s t → Isolates client t u → Isolates client s u
  isolates_trans s t u a b p d f n e own =
      let (g, eg, og, cg) = b p d f n e own in
      let (h, eh, oh, ch) = a p d g n eg og in (h, eh, oh, ch ∙ cg)

  -- A change of a file's other fields.
  pub isolates_change :
      (s : Storage) (p : ℕ) (f f' : FileData)
      → s.heap p ≡ some f
      → f'.client ≡ f.client
      → f'.content ≡ f.content
      → Isolates client s (store s p f')
  isolates_change s p f f' e owner same q d g n h own = elim (Bool-cases (p == q)) [
    | inl here ↦
        let new : f' ≡ g = ground (arith, h) in
        (
          f,
          ground (arith, e, (==_iff p q).0 here),
          sym owner ∙ ap (λ (x : FileData). x.client) new ∙ own,
          sym same ∙ ap (λ (x : FileData). x.content) new,
        )
    | inr there ↦ (g, ground (arith, h), own, refl)
  ]

  -- A file that the client owns afterwards, or nobody.
  pub isolates_put :
      (s : Storage) (p : ℕ) (f' : FileData)
      → (f'.client ≡ pos client) ⊎ ((n : ℕ) × (f'.client ≡ negsuc n))
      → Isolates client s (store s p f')
  isolates_put s p f' o q d g n h own = elim (Bool-cases (p == q)) [
    | inl here ↦
        let new : f' ≡ g = ground (arith, h) in
        absurd (ground (arith, o, n, ap (λ (x : FileData). x.client) new, own))
    | inr there ↦ (g, ground (arith, h), own, refl)
  ]

  pub isolates_free :
      (s : Storage) (p : ℕ) → Isolates client s (record s { heap = update s.heap p none })
  isolates_free s p q d g n h own = elim (Bool-cases (p == q)) [
    | inl here ↦ absurd (ground (arith, h))
    | inr there ↦ (g, ground (arith, h), own, refl)
  ]

instance abbrev pub isolates_stable : {client : ℕ} → Stable (Isolates client)
isolates_stable {client} = record {
  order = record { reflexive = isolates_refl client; transitive = isolates_trans client };
  flag = λ s b. isolates_refl client s;
  mark = λ s p f b e. isolates_change client s p f (record f { locked = b }) e refl refl;
  info = λ s p f n e. isolates_change client s p f (record f { data_info = n }) e refl refl;
}

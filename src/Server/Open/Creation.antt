-- ===== src/Server/Open/Creation.antt =====
-- What `server_openFile` (src/server.c) does when it creates a file in a valid storage.
use lso_baldini.CString.{Bytes}
use lso_baldini.Common.{
  ◌⊎◌, [], ◌∷◌, ◌++◌, ◌≢◌, ℕ, ◌+◌, ◌<◌, ◌≡◌, true, false, Bool-cases, none, some, ◌||◌, ◌==◌, pos,
  minus_one, arith, ap, inl, inr, ◌∙◌, ==_refl,
}
use lso_baldini.Message.{locks, sapi_success, sapi_failure}
use lso_baldini.Run.{blocked, ret}
use lso_baldini.Server.Open.{opened, open_new}
use lso_baldini.Server.World.{World, Frame, sapi_respond}
use lso_baldini.Storage.Addition.{
  IsPending, new_file, alloc-IsPending, store-IsPending, flag-IsPending, with_file, fu_add_file_lem,
}
use lso_baldini.Storage.Invariant.{IsValid}
use lso_baldini.Storage.{
  FileData, Heap, Storage, update, fu_alloc_file_data, fu_storage_bytes_available,
  fu_storage_files_available, fu_free_file_data,
}

-- The storage while the new file is in no table yet.
abbrev pub pending : ℕ → ℕ → Storage → Storage
pending message client s = record s {
  heap =
      update (update s.heap s.next (some new_file)) s.next (some (opened message client new_file));
  next = s.next + 1;
  locked = true;
}

opened-data_len :
    (message client : ℕ) (f : FileData) → (opened message client f).data_len ≡ f.data_len
opened-data_len message client f = elim (Bool-cases (locks message)) [ inl e ↦ rw e | inr e ↦ rw e ]

pub opened-content :
    (message client : ℕ) (f : FileData) → (opened message client f).content ≡ f.content
opened-content message client f = elim (Bool-cases (locks message)) [ inl e ↦ rw e | inr e ↦ rw e ]

pub pending-IsPending :
    {s : Storage} (message client : ℕ)
    → IsValid s
    → IsPending (pending message client s) s.next (opened message client new_file)
unfolding fu_alloc_file_data
pending-IsPending {s} message client v = flag-IsPending s.next true (
    store-IsPending s.next new_file (opened message client new_file) (alloc-IsPending v)
      (opened-data_len message client new_file) (opened-content message client new_file))

-- `w` with the storage's mutex free.
abbrev unheld : World → World
unheld w = record w { storage = record (w.storage) { locked = false } }

unheld_lem : (w : World) → w.storage.locked ≡ false → w ≡ unheld w
unheld_lem w free = ap (λ b. record w { storage = record (w.storage) { locked = b } }) free

-- The world after the new file was stored, and the world after it was freed.
abbrev pub stored : ℕ → ℕ → Bytes → World → World
stored message client path w =
    let p = w.storage.next in
    record w {
      storage =
          record (with_file (pending message client w.storage) p (opened message client new_file)
            path) { locked = false };
    }

abbrev pub discarded : ℕ → ℕ → World → World
discarded message client w =
    let s = pending message client w.storage in
    record w { storage = record s { heap = update s.heap w.storage.next none; locked = false } }

module _ (message client : ℕ) (path : Bytes) (w : World) where
  store_unheld :
      IsValid w.storage
      → w.storage.curr_bytes < w.storage.max_bytes
      → w.storage.curr_files < w.storage.max_files
      → open_new message client path (unheld w)
        ≡ sapi_respond sapi_success client (pos 0) (stored message client path w)
  unfolding open_new fu_alloc_file_data fu_storage_bytes_available fu_storage_files_available
      fu_free_file_data
  store_unheld v bytes files =
      let v' = pending-IsPending message client v in
      let same = ==_refl w.storage.next in
      let added = fu_add_file_lem w.storage.next path v' files in
      ground (arith, same, added, v.files_bound, v.bytes_bound, v.files_small, v.bytes_small)

  refuse_unheld :
      ((fu_storage_bytes_available w.storage == 0) || (fu_storage_files_available w.storage == 0))
        ≡ true
      → open_new message client path (unheld w)
        ≡ sapi_respond sapi_failure client minus_one (discarded message client w)
  unfolding open_new fu_alloc_file_data fu_storage_bytes_available fu_storage_files_available
      fu_free_file_data
  refuse_unheld full = ground (arith, ==_refl w.storage.next, full)

  -- In a valid storage whose mutex is free, with a byte and a slot left, the creation of a file stores
  -- it under its path for the client, frees the mutex and answers success.
  pub open_new-stored :
      IsValid w.storage
      → w.storage.locked ≡ false
      → w.storage.curr_bytes < w.storage.max_bytes
      → w.storage.curr_files < w.storage.max_files
      → open_new message client path w
        ≡ sapi_respond sapi_success client (pos 0) (stored message client path w)
  open_new-stored v free bytes files =
      ap (open_new message client path) (unheld_lem w free) ∙ store_unheld v bytes files

  -- With no byte or no slot left, by the tests of the code.
  pub open_new_refused :
      w.storage.locked ≡ false
      → ((fu_storage_bytes_available w.storage == 0) || (fu_storage_files_available w.storage == 0))
        ≡ true
      → open_new message client path w
        ≡ sapi_respond sapi_failure client minus_one (discarded message client w)
  open_new_refused free full =
      ap (open_new message client path) (unheld_lem w free) ∙ refuse_unheld full

  no_room :
      IsValid w.storage
      → (w.storage.curr_bytes ≡ w.storage.max_bytes) ⊎ (w.storage.curr_files ≡ w.storage.max_files)
      → ((fu_storage_bytes_available w.storage == 0) || (fu_storage_files_available w.storage == 0))
        ≡ true
  unfolding fu_storage_bytes_available fu_storage_files_available
  no_room v (inl bytes) = ground (arith, bytes, v.bytes_small)
  no_room v (inr files) = ground (arith, files, v.files_small)

  -- In a valid storage whose mutex is free, that holds as many bytes or as many files as it may, a file is
  -- not created: the client is sent the failure and nothing else, -1 is returned, no file, no path and no
  -- counter has changed, and the mutex is free again.
  pub open_new-full :
      IsValid w.storage
      → w.storage.locked ≡ false
      → w.writes ≡ []
      → client ≢ 0
      → (w.storage.curr_bytes ≡ w.storage.max_bytes) ⊎ (w.storage.curr_files ≡ w.storage.max_files)
      → (h : Heap) × (open_new message client path w
          ≡ ret (
            minus_one,
            record w {
              storage = record (w.storage) { heap = h; next = w.storage.next + 1; locked = false };
              sent = w.sent ++ (Frame.status sapi_failure ∷ []);
            },
          ))
        × ((q : ℕ) → h q ≡ w.storage.heap q)
  unfolding sapi_respond
  open_new-full v free answer some_client full =
      let h = update (pending message client w.storage).heap w.storage.next none in
      let answered : sapi_respond sapi_failure client minus_one (discarded message client w)
          ≡ ret (
            minus_one,
            record (discarded message client w) {
              sent = w.sent ++ (Frame.status sapi_failure ∷ []);
            },
          ) =
        ground (arith, answer, some_client) in
      (
        h,
        open_new_refused free (no_room v full) ∙ answered,
        λ q. ground (arith, v.fresh w.storage.next),
      )

  -- While the storage's mutex is held the request waits.
  pub open_new_held : w.storage.locked ≡ true → open_new message client path w ≡ blocked
  unfolding open_new fu_alloc_file_data
  open_new_held held =
      ap (open_new message client path)
        (ap (λ b. record w { storage = record (w.storage) { locked = b } }) held)
      ∙ wait
    where
      wait :
          open_new message client path (record w { storage = record (w.storage) { locked = true } })
          ≡ blocked
      wait = ground (arith, ==_refl w.storage.next)

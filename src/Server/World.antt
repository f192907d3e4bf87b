-- ===== src/Server/World.antt =====
-- The world of a handler, and the calls from which the handlers of src/server.c are made.
use lso_baldini.Common.{
  ℕ, ◌+◌, ◌*◌, ◌/◌, ◌^◌, List, [], ◌∷◌, ◌++◌, Bool, true, false, Option, none, some, ◌==◌,
  if◌then◌else◌, length, take, ℤ, minus_one, ◌||◌,
}
use lso_baldini.CString.{Bytes, c_string}
use lso_baldini.Memory.{mu_calloc, Allocation, exits, null, block}
use lso_baldini.Message.{len_of}
use lso_baldini.Run.{Run, ret, blocked, exited, fault}
use lso_baldini.Storage.{FileData, Storage, store}

-- What one `write` sends: an `s_message`, a `size_t` or a buffer.
pub data Frame : Type 0 where
  status : ℕ → Frame
  size : ℕ → Frame
  payload : Bytes → Frame

-- `reads` and `writes` are the outcomes of the calls to come: `none` and `false` are the return -1,
-- and past the end of the lists a `read` meets the end of the stream and a `write` succeeds.
-- `uninit` is the value of a `size_t` that was not set, `stale` what a freed path is read as.
pub record World : Type 0 where
  pub storage : Storage
  pub reads : List (Option Bytes)
  pub writes : List Bool
  pub sent : List Frame
  pub uninit : ℕ
  pub stale : Bytes → Bytes

abbrev pub M : Type 0 → Type 0
M A = World → Run (A × World)

abbrev pub pure : {A : Type 0} → A → M A
pure a w = ret (a, w)

infixl 5 ◌>>=◌ ◌>>◌
abbrev pub ◌>>=◌ : {A B : Type 0} → M A → (A → M B) → M B
◌>>=◌ m f w = elim (m w) [
  | ret (a, w') ↦ f a w'
  | blocked ↦ blocked
  | exited ↦ exited
  | fault ↦ fault
]

abbrev pub ◌>>◌ : {B : Type 0} → M (Unit {0}) → M B → M B
m >> k = m >>= λ _. k

-- A call that works on the storage.
abbrev pub on_storage : {A : Type 0} → (Storage → Run (A × Storage)) → M A
on_storage op w = elim (op w.storage) [
  | ret (a, s) ↦ ret (a, record w { storage = s })
  | blocked ↦ blocked
  | exited ↦ exited
  | fault ↦ fault
]

abbrev pub ask : {A : Type 0} → (Storage → A) → M A
ask f w = ret (f w.storage, w)

abbrev pub lock_storage : M (Unit {0})
lock_storage w =
    if w.storage.locked
    then blocked
    else ret (tt, record w { storage = record (w.storage) { locked = true } })

abbrev pub unlock_storage : M (Unit {0})
unlock_storage w = ret (tt, record w { storage = record (w.storage) { locked = false } })

-- `*file`
abbrev pub load : ℕ → M FileData
load p w = elim (w.storage.heap p) [ none ↦ fault | some f ↦ ret (f, w) ]

abbrev pub save : ℕ → FileData → M (Unit {0})
save p f w = ret (tt, record w { storage = store w.storage p f })

-- `mutex_lock(file->mutex)`
abbrev pub lock_file : ℕ → M (Unit {0})
lock_file p w = elim (w.storage.heap p) [
  | none ↦ fault
  | some f ↦
      if f.locked
      then blocked
      else ret (tt, record w { storage = store w.storage p (record f { locked = true }) })
]

abbrev pub unlock_file : ℕ → M (Unit {0})
unlock_file p w = elim (w.storage.heap p) [
  | none ↦ fault
  | some f ↦ ret (tt, record w { storage = store w.storage p (record f { locked = false }) })
]

-- A `read` of at most `n` bytes.
abbrev pub read : ℕ → M (Option Bytes)
read n w = elim (w.reads) [
  | [] ↦ ret (some [], w)
  | r ∷ rs ↦ ret (elim r [ none ↦ none | some bs ↦ some (take n bs) ], record w { reads = rs })
]

-- A `write`: `true` if it returns -1.
abbrev pub write : Frame → M Bool
write m w = elim (w.writes) [
  | [] ↦ ret (false, record w { sent = w.sent ++ (m ∷ []) })
  | sends ∷ rest ↦
      if sends
      then ret (false, record w { sent = w.sent ++ (m ∷ []); writes = rest })
      else ret (true, record w { writes = rest })
]

-- `server_respond`: `true` is the error return -1.
unfoldable pub server_respond : ℕ → ℕ → M Bool
server_respond message client = if client == 0 then pure true else write (Frame.status message)

-- The macro `SAPI_RESPOND` (include/server.h) and the `return` behind it.
unfoldable pub sapi_respond : ℕ → ℕ → ℤ → M ℤ
unfolding server_respond
sapi_respond message client result = do
  failed ← server_respond message client
  if failed then pure minus_one else pure result

abbrev pub exit_process : {A : Type 0} → M A
exit_process w = exited

-- What follows an allocation that must not end the process.
abbrev pub unless_exit : {A : Type 0} → Allocation → M A → M A
unless_exit exits m = exit_process
unless_exit null m = m
unless_exit block m = m

-- `none` is the null pointer.
unfoldable pub server_get_path : ℕ → ℕ → M (Option Bytes)
unfolding mu_calloc c_string
server_get_path message client =
    if message == 0 || client == 0
    then pure none
    else unless_exit (mu_calloc (len_of message + 1)) (do
      bytes ← read (len_of message)
      elim bytes [ none ↦ pure none | some bs ↦ pure (some (c_string bs)) ])

-- Little-endian.
unfoldable pub le_decode : Bytes → ℕ
le_decode [] = 0
le_decode (b ∷ bs) = b + 256 * le_decode bs

-- A `size_t` with the value `old`, of which a `read` has set the first bytes.
abbrev pub overwrite : ℕ → Bytes → ℕ
overwrite old bs = le_decode bs + old / 256 ^ length bs * 256 ^ length bs

abbrev pub uninit_size : M ℕ
uninit_size w = ret (w.uninit, w)

unfoldable pub server_get_len : ℕ → M ℕ
unfolding le_decode
server_get_len client = if client == 0 then pure 0 else do
  old ← uninit_size
  bytes ← read 8
  elim bytes [ none ↦ pure 0 | some bs ↦ pure (overwrite old bs) ]

-- `true` is the error return -1.
unfoldable pub server_send_path : ℕ → Option Bytes → M Bool
server_send_path client none = pure true
server_send_path client (some path) = if client == 0 then pure true else do
  failed ← write (Frame.size (length path))
  if failed then pure true else write (Frame.payload path)

-- The buffer is null exactly when it is empty.
unfoldable pub server_send_data : ℕ → Bytes → ℕ → M Bool
server_send_data client bytes data_len =
    if client == 0 || (length bytes == 0 || data_len == 0) then pure true else do
      failed ← write (Frame.size data_len)
      if failed then pure true else write (Frame.payload bytes)

-- ===== src/Client.antt =====
-- The client library (src/serverapi.c): the connection's state, and the calls from which its requests
-- are made. What it prints is left out, and pointers to results are not null.
pub mod Requests
pub mod Eviction
pub mod ReadMany
pub mod Transfer
pub mod Connection
pub mod Ends
pub mod Termination
pub mod Loops
use lso_baldini.Common.{
  ℕ, ◌+◌, ◌-◌, ◌^◌, ◌%◌, List, [], ◌∷◌, ◌++◌, Bool, true, false, Option, none, some, ◌==◌,
  if◌then◌else◌, not, ◌||◌, length, take, replicate, ℤ, pos, minus_one,
}
use lso_baldini.CString.{Bytes}
use lso_baldini.Disk.{Disk, Buffer, fu_read_from_path, fu_write_to_path}
use lso_baldini.Memory.{mu_realloc, exits, null, block}
use lso_baldini.Message.{sapi_message_len}
use lso_baldini.Run.{Run, ret, blocked, exited, fault}
use lso_baldini.Server.World.{Frame, overwrite}
use lso_baldini.UString.{resize, copy_at}

-- `connected` is `server_socket_fd != 0`. `reads` and `writes` are the outcomes of the calls to come:
-- `none` and `false` are the return -1, and past the end of the lists a `read` meets the end of the
-- stream and a `write` succeeds. `word` is the value of an `s_message` that was not set, `junk` of a
-- byte.
pub record Session : Type 0 where
  pub connected : Bool
  pub reads : List (Option Bytes)
  pub writes : List Bool
  pub sent : List Frame
  pub disk : Disk
  pub word : ℕ
  pub junk : ℕ

abbrev pub C : Type 0 → Type 0
C A = Session → Run (A × Session)

abbrev pub pure : {A : Type 0} → A → C A
pure a c = ret (a, c)

infixl 5 ◌>>=◌
abbrev pub ◌>>=◌ : {A B : Type 0} → C A → (A → C B) → C B
◌>>=◌ m f c = elim (m c) [
  | ret (a, c') ↦ f a c'
  | blocked ↦ blocked
  | exited ↦ exited
  | fault ↦ fault
]

-- A computation that sees no connection.
abbrev pub lift : {A : Type 0} → (Session → Run A) → C A
lift r c = elim (r c) [ ret a ↦ ret (a, c) | blocked ↦ blocked | exited ↦ exited | fault ↦ fault ]

-- A `read` of at most `n` bytes.
abbrev pub read : ℕ → C (Option Bytes)
read n c = elim (c.reads) [
  | [] ↦ ret (some [], c)
  | r ∷ rs ↦ ret (elim r [ none ↦ none | some bs ↦ some (take n bs) ], record c { reads = rs })
]

-- A `write`: `true` if it returns -1.
abbrev pub write : Frame → C Bool
write m c = elim (c.writes) [
  | [] ↦ ret (false, record c { sent = c.sent ++ (m ∷ []) })
  | sends ∷ rest ↦
      if sends
      then ret (false, record c { sent = c.sent ++ (m ∷ []); writes = rest })
      else ret (true, record c { writes = rest })
]

-- The number of `read`s before the end of the stream.
abbrev pub reads_left : C ℕ
reads_left c = ret (length c.reads, c)

abbrev pub is_connected : C Bool
is_connected c = ret (c.connected, c)

abbrev pub read_disk : Bytes → Buffer → C (ℤ × Buffer)
read_disk path old = lift λ c. fu_read_from_path c.disk path old

abbrev pub write_disk : Bytes → Buffer → C ℤ
write_disk path buffer c =
    let (result, after) = fu_write_to_path c.disk path buffer in
    ret (result, record c { disk = after })

-- `true` is the error return -1, here and in the next two. The flags are `O_CREATE` and `O_LOCK` at
-- most.
unfoldable pub sapi_sendop : ℕ → ℕ → ℕ → C Bool
unfolding sapi_message_len
sapi_sendop messlen op flags = do
  connected ← is_connected
  if not connected then pure true else write (Frame.status (sapi_message_len flags op messlen))

unfoldable pub sapi_senddatalen : ℕ → C Bool
sapi_senddatalen datalen = do
  connected ← is_connected
  if not connected then pure true else write (Frame.size datalen)

unfoldable pub sapi_senddata : Buffer → C Bool
sapi_senddata (bytes, datalen) = if length bytes == 0 || datalen == 0 then pure true else do
  connected ← is_connected
  if not connected then pure true else write (Frame.payload (take datalen bytes))

abbrev pub uninit_word : C ℕ
uninit_word c = ret (c.word, c)

-- The -1 that it returns is an `unsigned int`.
unfoldable pub sapi_get_response : C ℕ
sapi_get_response = do
  old ← uninit_word
  bytes ← read 4
  pure (elim bytes [ none ↦ 2 ^ 32 - 1 | some bs ↦ overwrite old bs ])

-- The buffer for a path of `n` bytes, made of the last one. `n + 1` is a `size_t`; where it wraps to 0
-- the buffer is null.
unfoldable pub grow_path : ℕ → Bytes → C Bytes
unfolding mu_realloc replicate
grow_path n old c = elim (mu_realloc ((n + 1) % 2 ^ 64)) [
  | exits ↦ exited
  | null ↦ fault
  | block ↦ ret (copy_at n (0 ∷ []) (resize c.junk (n + 1) old), c)
]

-- The new content of the path's buffer; `none` is the error return -1.
unfoldable pub sapi_get_path : Bytes → C (Option Bytes)
unfolding grow_path
sapi_get_path old = do
  len_bytes ← read 8
  elim len_bytes [
    | none ↦ pure none
    | some len ↦ if overwrite 0 len == 0 then pure none else do
      buffer ← grow_path (overwrite 0 len) old
      bytes ← read (overwrite 0 len)
      pure (elim bytes [ none ↦ none | some bs ↦ some (copy_at 0 bs buffer) ])
  ]

-- The buffer that a block is read into, when its length is known.
unfoldable pub get_block : ℕ → Bytes → C (ℤ × Buffer)
unfolding mu_realloc replicate
get_block n old = if n == 0 then pure (minus_one, (old, 0)) else elim (mu_realloc n) [
  | exits ↦ λ _. exited
  | _ ↦ do
    bytes ← read n
    pure (elim bytes [
      | none ↦ (minus_one, (replicate n 0, n))
      | some bs ↦ (pos 0, (bs ++ replicate (n - length bs) 0, n))
    ])
]

unfoldable pub sapi_get_data : Buffer → C (ℤ × Buffer)
unfolding get_block
sapi_get_data (old, datalen) = do
  bytes ← read 8
  elim bytes [
    | none ↦ pure (minus_one, (old, datalen))
    | some bs ↦ get_block (overwrite datalen bs) old
  ]

-- ===== src/Client/ReadMany.antt =====
-- `readNFiles` (src/serverapi.c).
use lso_baldini.Common.{
  ℕ, zero, suc, ◌+◌, [], Option, none, some, ◌==◌, if◌then◌else◌, not, ℤ, pos, minus_one, eq_ℤ,
}
use lso_baldini.CString.{Bytes, c_string, strlen}
use lso_baldini.Message.{sapi_readnfiles}
use lso_baldini.Run.{blocked, exited, ◌>>=◌ as bind_run}
use lso_baldini.UString.{UString, su_string_from_literal, su_append_chars, su_realloc}
use lso_baldini.Client.{
  C, pure, ◌>>=◌, lift, is_connected, sapi_sendop, sapi_get_path, sapi_get_data, write_disk,
  reads_left,
}

-- The number of files that are saved of the one whose data comes next, 0 or 1, and the length that is
-- left of it.
unfoldable pub save_one : Bytes → ℕ → C (ℕ × ℕ)
unfolding sapi_get_data
save_one dest size = do
  data_read ← sapi_get_data ([], size)
  if eq_ℤ data_read.0 minus_one then pure (0, data_read.1.1) else do
    written ← write_disk dest data_read.1
    pure (if eq_ℤ written minus_one then 0 else 1, data_read.1.1)

-- The loop, with what was saved, the destination and the last length. Without fuel it goes on for
-- ever.
unfoldable pub read_loop : ℕ → Bytes → ℕ → UString → ℕ → C ℤ
unfolding sapi_get_path su_append_chars save_one su_realloc c_string
read_loop zero dirname count dest size = λ _. blocked
read_loop (suc fuel) dirname count dest size =
    let next = read_loop fuel dirname in
    do
      path ← sapi_get_path []
      elim path [
        | none ↦ λ _. exited
        | some bytes ↦ if strlen (c_string bytes) == 0 then pure (pos count) else do
          full ← lift λ c.
              bind_run (su_append_chars c.junk dest dirname)
                (λ d. su_append_chars c.junk d (c_string bytes))
          saved ← save_one (c_string full.buffer) size
          emptied ← lift λ c. su_realloc c.junk full 0
          next (count + saved.0) emptied saved.1
      ]

-- A null `dirname` is `none`.
unfoldable pub read_n_files : ℕ → Option Bytes → C ℤ
unfolding sapi_sendop su_string_from_literal read_loop
read_n_files n none = pure (if n == 0 then pos 0 else minus_one)
read_n_files n (some dirname) = if n == 0 then pure (pos 0) else do
  connected ← is_connected
  if not connected then pure minus_one else do
    failed ← sapi_sendop n sapi_readnfiles 0
    if failed then pure minus_one else do
      dest ← lift λ c. su_string_from_literal c.junk []
      k ← reads_left
      read_loop (k + 1) dirname 0 dest 0

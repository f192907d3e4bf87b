-- ===== src/Client/Eviction.antt =====
-- `sapi_evict` (src/serverapi.c): the files that the server sends back are saved in a directory.
use lso_baldini.Common.{
  not, ℕ, zero, suc, ◌+◌, [], ◌∷◌, none, some, ◌==◌, if◌then◌else◌, ℤ, pos, minus_one, eq_ℤ,
}
use lso_baldini.CString.{Bytes, c_string}
use lso_baldini.Disk.{Buffer}
use lso_baldini.Message.{sapi_evict as evict_answer}
use lso_baldini.Run.{Run, blocked, ◌>>=◌ as bind_run}
use lso_baldini.UString.{UString, su_string_from_literal, su_append_chars, su_realloc}
use lso_baldini.Client.{
  C, pure, ◌>>=◌, lift, sapi_senddatalen, sapi_get_response, sapi_get_path, sapi_get_data,
  write_disk, reads_left,
}

abbrev pub slash : Bytes
slash = 47 ∷ []

-- The three calls of `su_append_chars`.
unfoldable pub saved_path : ℕ → UString → Bytes → Bytes → Run UString
unfolding su_append_chars
saved_path junk dest dirname path =
    bind_run (bind_run (su_append_chars junk dest dirname) (λ d. su_append_chars junk d slash))
      (λ d. su_append_chars junk d path)

-- The data of a file is saved if it arrives; that it cannot be saved is only printed.
unfoldable pub save_file : Bytes → Buffer → C Buffer
unfolding sapi_get_data
save_file dest old = do
  data_read ← sapi_get_data old
  if not (eq_ℤ data_read.0 (pos 0))
      then pure data_read.1
      else do _ ← write_disk dest data_read.1; pure data_read.1

-- The loop, with what the path's and the data's buffers and the destination hold from the round
-- before. Without fuel it goes on for ever.
unfoldable pub evict_rounds : ℕ → Bytes → UString → Bytes → Buffer → C ℤ
unfolding sapi_get_response sapi_get_path saved_path save_file c_string su_realloc
evict_rounds zero dirname dest old buffer = λ _. blocked
evict_rounds (suc fuel) dirname dest old buffer =
    let next = evict_rounds fuel dirname in
    do
      m ← sapi_get_response
      if not (m == evict_answer) then pure (pos 0) else do
        path ← sapi_get_path old
        elim path [
          | none ↦ pure minus_one
          | some bytes ↦ do
            full ← lift λ c. saved_path c.junk dest dirname (c_string bytes)
            data_read ← save_file (c_string full.buffer) buffer
            emptied ← lift λ c. su_realloc c.junk full 0
            next emptied bytes data_read
        ]

unfoldable pub sapi_evict : Bytes → C ℤ
unfolding su_string_from_literal sapi_senddatalen evict_rounds
sapi_evict dirname = do
  dest ← lift λ c. su_string_from_literal c.junk []
  failed ← sapi_senddatalen 1
  if failed then pure minus_one else do n ← reads_left; evict_rounds (n + 1) dirname dest [] ([], 0)

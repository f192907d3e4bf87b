-- ===== src/UString.antt =====
-- The growable string (libs/LSO_LIB/string_utils.c). `buffer` is all that `data` points to; a byte that
-- was never set has the value `junk`. Null pointers and printing are left out.
pub mod Laws
use lso_baldini.CString.{Bytes, strlen, strncmp, min, c_string}
use lso_baldini.Common.{
  ℕ, ◌+◌, ◌-◌, List, [], ◌∷◌, ◌++◌, ◌==◌, if◌then◌else◌, length, take, drop, replicate, set, ℤ,
}
use lso_baldini.Memory.{mu_malloc, mu_realloc, exits}
use lso_baldini.Run.{Run, ret, exited, ◌>>=◌}

pub record UString : Type 0 where
  pub buffer : Bytes
  pub len : ℕ

-- A buffer that gets the size `n`: what it held stays as far as there is room.
abbrev pub resize : ℕ → ℕ → Bytes → Bytes
resize junk n old = take n old ++ replicate (n - length old) junk

-- `memcpy(buffer + i, bytes, …)`
abbrev pub copy_at : ℕ → Bytes → Bytes → Bytes
copy_at i bytes old = take i old ++ (bytes ++ drop (i + length bytes) old)

module _ (junk : ℕ) where
  unfoldable pub su_string_from_literal : Bytes → Run UString
  unfolding mu_malloc replicate
  su_string_from_literal literal = elim (mu_malloc (strlen literal + 1)) [
    | exits ↦ exited
    | _ ↦ ret (record {
      buffer = copy_at 0 literal (resize junk (strlen literal + 1) []);
      len = strlen literal;
    })
  ]

  -- `newsize + 1` is a `size_t`, and is not 0 unless it wraps.
  unfoldable pub su_realloc : UString → ℕ → Run UString
  unfolding mu_realloc replicate
  su_realloc s newsize = elim (mu_realloc (newsize + 1)) [
    | exits ↦ exited
    | _ ↦ ret (record {
      buffer = copy_at newsize (0 ∷ []) (resize junk (newsize + 1) s.buffer);
      len = newsize;
    })
  ]

  unfoldable pub su_string_extend : UString → ℕ → Run UString
  unfolding su_realloc
  su_string_extend s delta = if delta == 0 then ret s else su_realloc s (s.len + delta)

  -- `strcpy` copies the NUL too.
  unfoldable pub su_append_chars : UString → Bytes → Run UString
  unfolding su_string_extend
  su_append_chars s literal = do
    t ← su_string_extend s (strlen literal)
    ret (record t { buffer = copy_at s.len (literal ++ (0 ∷ [])) t.buffer })

  unfoldable pub su_strlen : UString → UString × ℕ
  unfolding c_string
  su_strlen s = (record s { len = strlen (c_string s.buffer) }, strlen (c_string s.buffer))

  unfoldable pub su_string_shrinktofit : UString → Run UString
  unfolding su_strlen su_realloc
  su_string_shrinktofit s = let (t, n) = su_strlen s in su_realloc t n

unfoldable pub su_u_string_compare : UString → UString → ℤ
unfolding strncmp c_string
su_u_string_compare a b = strncmp (c_string a.buffer) (c_string b.buffer) (min a.len b.len)

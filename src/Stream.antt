-- ===== src/Stream.antt =====
-- A text stream of the C library, as the reading of the settings (src/server.c) uses one: `fgetc`, `fseek`
-- back from the place, `fread`, and `fscanf` with the conversions that the code has. A stream that
-- cannot be read is left out.
pub mod Laws
use Prim.Native.Char.{code}
use Prim.Native.String
use Prim.Native.String.{String}
use lso_baldini.Common.{
  ℕ, zero, suc, ◌+◌, ◌-◌, ◌*◌, ◌^◌, List, [], ◌∷◌, Bool, true, false, Option, none, some, ltb, leb,
  ◌==◌, if◌then◌else◌, ◌&&◌, ◌||◌, length, take, drop, ℤ, pos, neg,
}
use lso_baldini.CString.{Bytes}
use lso_baldini.Run.{Run, ret, fault}

-- The bytes of a text.
abbrev pub codes : String → Bytes
codes String.[] = []
codes (String.◌∷◌ c s) = code c ∷ codes s

-- `behind` holds the bytes before the place, the nearest first. `eof` is what `feof` says.
pub record Stream : Type 0 where
  pub behind : Bytes
  pub ahead : Bytes
  pub eof : Bool

-- `none` is `EOF`.
unfoldable pub fgetc : Stream → Option ℕ × Stream
fgetc s = elim (s.ahead) [
  | [] ↦ (none, record s { eof = true })
  | c ∷ cs ↦ (some c, record s { behind = c ∷ s.behind; ahead = cs })
]

-- The place `n` bytes back, and `none` if there are not so many.
unfoldable pub rewind : ℕ → Bytes → Bytes → Option (Bytes × Bytes)
rewind zero behind ahead = some (behind, ahead)
rewind (suc n) [] ahead = none
rewind (suc n) (b ∷ behind) ahead = rewind n behind (b ∷ ahead)

-- `fseek(s, -n, SEEK_CUR)`; `none` is its error return.
unfoldable pub fseek_back : ℕ → Stream → Option Stream
unfolding rewind
fseek_back n s = elim (rewind n s.behind s.ahead) [
  | none ↦ none
  | some (behind, ahead) ↦ some (record { behind = behind; ahead = ahead; eof = false })
]

unfoldable pub reverse_onto : Bytes → Bytes → Bytes
reverse_onto [] ys = ys
reverse_onto (x ∷ xs) ys = reverse_onto xs (x ∷ ys)

unfoldable pub fread : ℕ → Stream → Bytes × Stream
unfolding reverse_onto
fread n s = (
  take n s.ahead,
  record {
    behind = reverse_onto (take n s.ahead) s.behind;
    ahead = drop n s.ahead;
    eof = s.eof || ltb (length s.ahead) n;
  },
)

-- The longest beginning whose bytes pass the test, and the rest.
unfoldable pub span : (ℕ → Bool) → Bytes → Bytes × Bytes
span test [] = ([], [])
span test (b ∷ bs) =
    let (passed, rest) = span test bs in if test b then (b ∷ passed, rest) else ([], b ∷ bs)

-- Behind the longest run of bytes that pass the test; the end of the stream is seen if the run goes up
-- to it.
unfoldable pub scanned : (ℕ → Bool) → Stream → ℕ × Stream
unfolding span reverse_onto
scanned test s =
    let (passed, rest) = span test s.ahead in
    (
      length passed,
      record {
        behind = reverse_onto passed s.behind;
        ahead = rest;
        eof = s.eof || length rest == 0;
      },
    )

-- `fscanf(s, "%*[set]%n", &n)`: `none` if it returns `EOF`, else `n`, which is 0 as before the call if
-- no byte is in the set.
unfoldable pub scan_set : (ℕ → Bool) → Stream → Option ℕ × Stream
unfolding scanned
scan_set test s = let (n, t) = scanned test s in (if length s.ahead == 0 then none else some n, t)

abbrev pub is_space : ℕ → Bool
is_space c = c == 32 || (leb 9 c && leb c 13)

abbrev pub is_digit : ℕ → Bool
is_digit c = leb 48 c && leb c 57

-- The value of digits behind a number.
unfoldable pub value_from : ℕ → Bytes → ℕ
value_from n [] = n
value_from n (d ∷ ds) = value_from (n * 10 + (d - 48)) ds

-- A sign, and the stream behind it.
unfoldable pub scan_sign : Stream → Bool × Stream
scan_sign s = elim (s.ahead) [
  | [] ↦ (false, s)
  | c ∷ cs ↦
      let after : Stream = record { behind = c ∷ s.behind; ahead = cs; eof = length cs == 0 } in
      if c == 45 then (true, after) else if c == 43 then (false, after) else (false, s)
]

-- `fscanf(s, "%d", &n)`: `none` if it does not return 1. The C standard does not define what happens
-- to a number that is no `int`.
unfoldable pub scan_int : Stream → Run (Option ℤ × Stream)
unfolding scanned scan_sign span value_from
scan_int s =
    let (minus, t) = scan_sign (scanned is_space s).1 in
    let digits = (span is_digit t.ahead).0 in
    let end = (scanned is_digit t).1 in
    if length digits == 0
    then ret (none, end)
    else if leb (2 ^ 31) (value_from 0 digits)
    then fault
    else ret
        (some (if minus then neg (pos (value_from 0 digits)) else pos (value_from 0 digits)), end)

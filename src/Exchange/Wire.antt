-- ===== src/Exchange/Wire.antt =====
-- Numbers on the connection between src/serverapi.c and src/server.c.
use lso_baldini.Common.{ℕ, zero, suc, ◌*◌, ◌/◌, ◌^◌, ◌<◌, ◌≡◌, refl, ap, length, arith}
use native.Mathlib.Omega.{pow_step}
use lso_baldini.Exchange.{le_encode}
use lso_baldini.Server.World.{le_decode, overwrite}

pub length-le_encode : (k n : ℕ) → length (le_encode k n) ≡ k
unfolding le_encode
length-le_encode zero n = refl
length-le_encode (suc k) n = ap suc (length-le_encode k (n / 256))

-- A number that has no more than `k` bytes is read as it was written.
pub le_decode-encode : (k n : ℕ) → n < 256 ^ k → le_decode (le_encode k n) ≡ n
unfolding le_encode le_decode
le_decode-encode zero n h = omega (arith, h)
le_decode-encode (suc k) n h =
    omega (arith, le_decode-encode k (n / 256) (omega (arith, h, pow_step 256 k)))

-- So are the four or eight bytes that overwrite a number of the same size.
pub overwrite-response : (n old : ℕ) → n < 2 ^ 32 → old < 2 ^ 32 → overwrite old (le_encode 4 n) ≡ n
overwrite-response n old h g = omega (
  arith,
  le_decode-encode 4 n (omega (arith, h)),
  ap (λ k. old / 256 ^ k * 256 ^ k) (length-le_encode 4 n),
  g,
)

pub overwrite-size : (n old : ℕ) → n < 2 ^ 64 → old < 2 ^ 64 → overwrite old (le_encode 8 n) ≡ n
overwrite-size n old h g = omega (
  arith,
  le_decode-encode 8 n (omega (arith, h)),
  ap (λ k. old / 256 ^ k * 256 ^ k) (length-le_encode 8 n),
  g,
)

-- ===== src/Client/Connection.antt =====
-- `openConnection` and `closeConnection` (src/serverapi.c), with times that are not negative and a
-- name for the socket.
use lso_baldini.Common.{
  ℕ, zero, suc, ◌+◌, ◌*◌, ◌-◌, ◌/◌, ◌%◌, Bool, leb, ◌||◌, ◌^◌, ltb, if◌then◌else◌, not, ℤ, pos,
  minus_one,
}
use lso_baldini.Run.{Run, ret, blocked, fault}

-- What one `connect` does: `retried` is -1 with `ENOENT` or `ECONNREFUSED`, `failed` any other error.
pub data Connect : Type 0 where
  connected retried failed : Connect

-- A number of nanoseconds, and the pause between two attempts.
abbrev pub second : ℕ
second = 1000000000

unfoldable pub pause_nsec : ℕ → ℕ
pause_nsec msec = let nsec = msec % 1000 * 1000000 in if ltb 999999999 nsec then 500000000 else nsec

unfoldable pub pause : ℕ → ℕ
unfolding pause_nsec
pause msec = pause_nsec msec + msec / 1000 * second

-- The loop, with the number of the attempt and the time that remains; a time that is not positive is
-- 0. Without fuel it goes on for ever.
unfoldable pub connect_loop : ℕ → (ℕ → Connect) → ℕ → ℕ → ℕ → Run ℤ
connect_loop zero connects interval k remaining = blocked
connect_loop (suc fuel) connects interval k remaining =
    let next = connect_loop fuel connects interval (k + 1) (remaining - interval) in
    elim (connects k) [
      | connected ↦ ret (if ltb 0 remaining then pos 0 else minus_one)
      | retried ↦ if ltb 0 remaining then next else ret minus_one
      | failed ↦ ret minus_one
    ]

-- `sockets` tells if `socket` succeeds, `msec` is an `int`. The time given is a `long` in nanoseconds,
-- which C does not define where it is too large.
unfoldable pub open_connection : ℕ → Bool → (ℕ → Connect) → ℕ → ℕ × ℕ → Run ℤ
unfolding pause connect_loop
open_connection fuel sockets connects msec (sec, nsec) =
    if not sockets
    then ret minus_one
    else if leb (2 ^ 63) (sec * second) || leb (2 ^ 63) (nsec + sec * second)
    then fault
    else connect_loop fuel connects (pause msec) 0 (nsec + sec * second)

-- `set` is `server_socket_fd != 0`.
unfoldable pub close_connection : Bool → Bool → ℤ
close_connection set closes = if not set then minus_one else if closes then pos 0 else minus_one

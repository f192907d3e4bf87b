-- ===== src/Message.antt =====
-- The messages of the protocol (include/server_message.h): a 32-bit word of two flag bits, six bits of
-- operation and 24 bits of length.
use lso_baldini.Common.{ℕ, ◌+◌, ◌*◌, ◌/◌, ◌%◌, ◌^◌, ◌<◌, ◌≡◌, ap, Bool, ◌==◌, arith}

abbrev pub sapi_success : ℕ
sapi_success = 0x00

abbrev pub sapi_failure : ℕ
sapi_failure = 0x01

abbrev pub sapi_evict : ℕ
sapi_evict = 0x02

abbrev pub sapi_fnf : ℕ
sapi_fnf = 0x03

abbrev pub sapi_locked : ℕ
sapi_locked = 0x04

abbrev pub sapi_already : ℕ
sapi_already = 0x06

abbrev pub sapi_openfile : ℕ
sapi_openfile = 0x0C

abbrev pub sapi_readfile : ℕ
sapi_readfile = 0x10

abbrev pub sapi_readnfiles : ℕ
sapi_readnfiles = 0x14

abbrev pub sapi_writefile : ℕ
sapi_writefile = 0x18

abbrev pub sapi_appendfile : ℕ
sapi_appendfile = 0x1C

abbrev pub sapi_lockfile : ℕ
sapi_lockfile = 0x20

abbrev pub sapi_unlockfile : ℕ
sapi_unlockfile = 0x24

abbrev pub sapi_closefile : ℕ
sapi_closefile = 0x28

abbrev pub sapi_removefile : ℕ
sapi_removefile = 0x2C

-- `SAPI_MESSAGE_LEN`. The parts share no bit, so that `|` is `+`, if the flags are below 4 and the
-- operation is a multiple of 4 below 256.
unfoldable pub sapi_message_len : ℕ → ℕ → ℕ → ℕ
sapi_message_len flags op len = flags + op + len * 2 ^ 8 % 2 ^ 32

-- `message & SAPI_OPMASK`, as an `unsigned char`
abbrev pub op_of : ℕ → ℕ
op_of message = message % 256 / 4 * 4

-- `message >> SAPI_MSSLEN_SHFT`
abbrev pub len_of : ℕ → ℕ
len_of message = message / 2 ^ 8

-- `message & O_CREATE`
abbrev pub creates : ℕ → Bool
creates message = message % 2 == 1

-- `message & O_LOCK`
abbrev pub locks : ℕ → Bool
locks message = message / 2 % 2 == 1

-- A message is read back as it was put together, if its length fits into 24 bits.
pub message_parts :
    (create lock op len : ℕ)
    → create < 2
    → lock < 2
    → op < 64
    → len < 2 ^ 24
    → let message = sapi_message_len (create + lock * 2) (op * 4) len in
      (op_of message ≡ op * 4)
      × (len_of message ≡ len)
      × (creates message ≡ (create == 1))
      × (locks message ≡ (lock == 1))
unfolding sapi_message_len
message_parts create lock op len hc hl ho hn =
    let m = sapi_message_len (create + lock * 2) (op * 4) len in
    let create_bit : m % 2 ≡ create = omega arith in
    let lock_bit : m / 2 % 2 ≡ lock = omega arith in
    (omega arith, omega arith, ap (λ (n : ℕ). n == 1) create_bit, ap (λ (n : ℕ). n == 1) lock_bit)

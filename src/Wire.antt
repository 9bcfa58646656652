-- ===== src/Wire.antt =====
-- The message header of src/gingko.h: ten decimal digits before each message.
pub mod RoundTrip
mod Tests
use gko_pool.Prelude.{
  ℕ, zero, suc, ◌+◌, ◌-◌, ◌*◌, ◌/◌, ◌%◌, ◌^◌, List, [], ◌∷◌, ◌||◌, ltb, ◌==◌, if◌then◌else◌, set,
  replicate,
}
use gko_pool.Prelude.Int.{ℤ, int_of_bits, pos_part}

-- CMD_PREFIX_BYTE
abbrev pub cmd_prefix_byte : ℕ
cmd_prefix_byte = 10

-- The `while (msg_len > 0)` loop: `p` starts at the last digit and steps down. `fuel` bounds the
-- rounds; a header has room for ten digits, and an `int` has no more.
unfoldable pub fill_digits : ℕ → ℕ → ℕ → List ℕ → List ℕ
fill_digits zero p msg_len cmd = cmd
fill_digits (suc fuel) p msg_len cmd =
    let rest = fill_digits fuel (p - 1) (msg_len / 10) (set cmd p (msg_len % 10 + b'0')) in
    if msg_len == 0 then cmd else rest

-- The header that is written for a message of `msg_len` bytes, an `int`. For a negative one the loop
-- makes no round.
unfoldable pub fill_cmd_head : ℤ → List ℕ
unfolding fill_digits
fill_cmd_head msg_len =
    fill_digits cmd_prefix_byte (cmd_prefix_byte - 1) (pos_part msg_len)
      (replicate cmd_prefix_byte b'0')

-- The loop over the first `rounds` bytes, on the 32-bit pattern of `*msg_len`. A byte that is no
-- digit sets the length to -1; past its end the buffer is read as NUL.
parse_digits : ℕ → ℕ → List ℕ → ℕ
parse_digits zero msg_len p = msg_len
parse_digits (suc rounds) msg_len [] = 2 ^ 32 - 1
parse_digits (suc rounds) msg_len (c ∷ p) =
    let rest = parse_digits rounds ((msg_len * 10 + c - b'0') % 2 ^ 32) p in
    if ltb b'9' c || ltb c b'0' then 2 ^ 32 - 1 else rest

pub parse_cmd_head : List ℕ → ℤ
unfolding parse_digits
parse_cmd_head cmd = int_of_bits (parse_digits cmd_prefix_byte 0 cmd)

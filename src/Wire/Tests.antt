-- ===== src/Wire/Tests.antt =====
-- Runs and witnesses of the header codec.
use gko_pool.Prelude.{◌++◌, ◌≡◌, refl, arith, [], ◌∷◌}
use gko_pool.Prelude.Int.{pos, negsuc}
use gko_pool.Wire.{fill_cmd_head, parse_cmd_head}
use gko_pool.Wire.RoundTrip.{parse-fill}

-- "0000000005HELLO"
reads_five : parse_cmd_head (fill_cmd_head (pos 5) ++ b'H' ∷ b'E' ∷ []) ≡ pos 5
unfolding parse_cmd_head fill_cmd_head
reads_five = refl

-- "0000000000H"
reads_negative : parse_cmd_head (fill_cmd_head (negsuc 4) ++ b'H' ∷ []) ≡ pos 0
unfolding parse_cmd_head fill_cmd_head
reads_negative = refl

parse-fill_example : parse_cmd_head (fill_cmd_head (pos 2147483647) ++ b'7' ∷ []) ≡ pos 2147483647
parse-fill_example = parse-fill (pos 2147483647) (b'7' ∷ []) (omega arith)

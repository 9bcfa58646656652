-- ===== src/Host/Tests.antt =====
-- Witnesses of the theorems on whole messages in src/gingko_base.cpp.
use gko_pool.Prelude.{◌≡◌, refl, arith, inr, some, List, [], ◌∷◌, ◌++◌, replicate}
use gko_pool.Prelude.Int.{pos}
use gko_pool.Wire.{fill_cmd_head, fill_digits}
use gko_pool.Host.{Sending, takes, Receiving, comes, sendall, readcmd, new_cmd}
use gko_pool.Host.Message.{
  IsWhole, IsPlain, stream, sendall-IsWhole, readcmd-new_cmd, readcmd_bad_header,
}

sendall-IsWhole_example : IsWhole (b'a' ∷ b'b' ∷ b'c' ∷ b'd' ∷ b'e' ∷ []) 5 (
    sendall
      (takes 2 ∷ Sending.retry ∷ takes 9 ∷ [])
      (some (b'a' ∷ b'b' ∷ b'c' ∷ b'd' ∷ b'e' ∷ []))
      5)
sendall-IsWhole_example =
    sendall-IsWhole (takes 2 ∷ Sending.retry ∷ takes 9 ∷ []) (b'a' ∷ b'b' ∷ b'c' ∷ b'd' ∷ b'e' ∷ [])
      5 (omega arith)

-- A message of three bytes, cut inside its header and its command, with a byte of the next message.
abbrev pieces : List Receiving
pieces =
    comes (replicate 7 b'0')
    ∷ comes (b'0' ∷ b'0' ∷ b'3' ∷ b'a' ∷ [])
    ∷ comes (b'b' ∷ b'c' ∷ b'0' ∷ [])
    ∷ []

pieces-IsPlain : IsPlain pieces
pieces-IsPlain = (omega arith, (omega arith, (omega arith, tt)))

pieces-stream : stream pieces ≡ new_cmd (b'a' ∷ b'b' ∷ b'c' ∷ []) ++ b'0' ∷ []
unfolding stream new_cmd fill_cmd_head fill_digits
pieces-stream = refl

readcmd-new_cmd_example :
    ((readcmd pieces 100).0 ≡ pos 3)
    × ((readcmd pieces 100).1 ≡ b'a' ∷ b'b' ∷ b'c' ∷ [])
    × (stream (readcmd pieces 100).2 ≡ b'0' ∷ [])
readcmd-new_cmd_example =
    readcmd-new_cmd pieces (b'a' ∷ b'b' ∷ b'c' ∷ []) (b'0' ∷ []) 100 pieces-IsPlain pieces-stream
      (omega arith) (omega arith)

abbrev garbled : List Receiving
garbled = comes (b'1' ∷ b'x' ∷ replicate 8 b'0') ∷ []

garbled-stream : stream garbled ≡ (b'1' ∷ [] ++ b'x' ∷ replicate 8 b'0') ++ []
unfolding stream
garbled-stream = refl

readcmd_bad_header_example : (readcmd garbled 100).0 ≡ pos 0
readcmd_bad_header_example =
    readcmd_bad_header garbled (b'1' ∷ []) (replicate 8 b'0') [] b'x' 100 (omega arith, tt)
      garbled-stream refl (omega arith) (inr (omega arith)) (omega arith)

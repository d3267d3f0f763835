-- ===== src/Frame/Wire/Kinds.antt =====
-- `fr_get_control` by the two low bits of the control octet.
use vfrs.Common.{ℕ, ◌/◌, ◌%◌, ◌≡◌, refl, Option, none, some, List, ◌∷◌, ◌==◌, if◌then◌else◌, arith}
use vfrs.Common.Bits.{bit_and_mask}
use vfrs.Frame.Wire.{Control, get_control}

-- What the control octets of a frame say by X.36, and what is said of an I-frame with an odd N(S).
abbrev pub control_of : ℕ → ℕ → Option Control
control_of ctrl more =
    let poll = ctrl / 16 % 2 in
    if ctrl % 4 == 3
    then some (record { kind = 2; pf = poll; nr = none; ns = none })
    else if ctrl % 4 == 1
    then some (record { kind = 1; pf = poll; nr = some (more / 2 % 8); ns = none })
    else if ctrl / 2 % 8 % 2 == 1
    then none
    else some (record { kind = 0; pf = poll; nr = some (more / 2 % 8); ns = some (ctrl / 2 % 8) })

-- For a frame with the octets `ctrl` and `more` after a two-octet address, `fr_get_control` answers
-- by the two low bits of `ctrl`, with P/F, N(R) and N(S) from their bits; but an I-frame whose N(S)
-- is odd is refused like a malformed frame.
pub get_control_lem :
    (a b ctrl more : ℕ) (rest : List ℕ)
    → get_control (a ∷ b ∷ ctrl ∷ more ∷ rest) ≡ control_of ctrl more
unfolding get_control
get_control_lem a b ctrl more rest =
    rw
      (
        bit_and_mask 2 ctrl 0x03 refl,
        bit_and_mask 1 (ctrl / 16) 0x01 refl,
        bit_and_mask 3 (more / 2) 0x07 refl,
        bit_and_mask 3 (ctrl / 2) 0x07 refl,
      )
      (ground arith)

-- ===== src/Wire/Command/Fields.antt =====
-- The two fields of a command number, src/raspike_protocol_com.h, lines 107 to 109.
use libraspike_art.Base.{
  ℕ, ◌+◌, ◌*◌, ◌^◌, ◌<◌, bit_and, bit_and_mask, bit_or_disjoint, bit_or_comm, ◌≡◌, ap, ◌∙◌, arith,
}
use libraspike_art.Wire.Command.{get_cmd_type, get_cmd_index, make_cmd}

make_cmd_sum : (kind id : ℕ) → id < 32 → make_cmd kind id ≡ kind * 32 + id
make_cmd_sum kind id h = omega (arith, bit_or_comm (kind * 2 ^ 5) id, bit_or_disjoint 5 id kind h)

-- A command number of a type below 8 and an index below 32 is a byte, and both fields are read back
-- from it.
pub get_cmd-make_cmd :
    (kind id : ℕ)
    → kind < 8
    → id < 32
    → (make_cmd kind id < 256)
      × (get_cmd_type (make_cmd kind id) ≡ kind)
      × (get_cmd_index (make_cmd kind id) ≡ id)
get_cmd-make_cmd kind id hk hi = (
  omega (arith, make_cmd_sum kind id hi),
  omega (arith, make_cmd_sum kind id hi),
  ap (λ t. bit_and t 0x1f) (make_cmd_sum kind id hi) ∙ bit_and_mask 5 kind id hi,
)

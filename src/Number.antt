-- ===== src/Number.antt =====
-- opencxl/util/number.py: bytes swapped, bits taken from either end of a number, and a number split
-- into parts. `get_randbits` is left out.
pub mod Laws
use Prim.Native.Nat.{bit_and, bit_or}
use opencxl_core.Prelude.{
  ℕ, zero, suc, ◌+◌, ◌-◌, ◌/◌, Bool, List, [], ◌∷◌, if◌then◌else◌, ltb, leb, Result, ok, err,
  value_error,
}
use opencxl_core.Prelude.Bits.{shl, shr, and_not}

-- At 0, Python computes with -1, which every step keeps.
unfoldable pub round_up_to_power_of_2 : ℕ → ℕ
round_up_to_power_of_2 zero = 0
round_up_to_power_of_2 (suc number) =
    let n₁ = bit_or number (shr number 1) in
    let n₂ = bit_or n₁ (shr n₁ 2) in
    let n₃ = bit_or n₂ (shr n₂ 4) in
    let n₄ = bit_or n₃ (shr n₃ 8) in let n₅ = bit_or n₄ (shr n₄ 16) in n₅ + 1

unfoldable pub bswap16 : ℕ → ℕ
bswap16 n = bit_or (shr (bit_and n 0xff00) 8) (shl (bit_and n 0x00ff) 8)

unfoldable pub bswap32 : ℕ → ℕ
bswap32 n =
    bit_or
      (bit_or (bit_or (shr (bit_and n 0xff000000) 24) (shr (bit_and n 0x00ff0000) 8))
        (shl (bit_and n 0x0000ff00) 8))
      (shl (bit_and n 0x000000ff) 24)

-- `sys.byteorder` is a parameter: `big` says that it is "big". `to_be16`, `htotlp16` and `tlptoh16`
-- are one function, and so are those of 32 bits.
unfoldable pub to_be16 : Bool → ℕ → ℕ
to_be16 big n = if big then n else bswap16 n

unfoldable pub to_be32 : Bool → ℕ → ℕ
to_be32 big n = if big then n else bswap32 n

-- The loop of `split_int` at `unit`, with `count` units left.
unfoldable pub split_units : ℕ → ℕ → ℕ → ℕ → List ℕ
split_units stride zero unit cacheline = []
split_units stride (suc count) unit cacheline =
    let masked = and_not cacheline (shl 1 unit - 1) in
    shr masked unit ∷ split_units stride count (unit - stride) (cacheline - masked)

-- `range(line_length - stride, -1, -stride)` has a unit for each stride in the line, for a stride
-- of at least 1.
unfoldable pub split_int : ℕ → ℕ → ℕ → List ℕ
split_int cacheline line_length stride =
    split_units stride (line_length / stride) (line_length - stride) cacheline

unfoldable pub extract_upper : ℕ → ℕ → ℕ → Result ℕ
extract_upper from_what how_much how_long =
    if leb (shl 1 how_long) from_what
    then err value_error
    else if ltb how_long how_much
    then err value_error
    else (let full_mask = shl 1 how_long - 1 in
        let low = shl 1 (how_long - how_much) - 1 in
        let b_mask = and_not full_mask low in
        ok (shr (bit_and from_what b_mask) (how_long - how_much)))

unfoldable pub extract_lower : ℕ → ℕ → ℕ → Result ℕ
extract_lower from_what how_much how_long =
    if leb (shl 1 how_long) from_what
    then err value_error
    else if ltb how_long how_much
    then err value_error
    else ok (bit_and (shl 1 how_much - 1) from_what)

-- ===== src/Tests/Bytes.antt =====
-- opencxl/util/unaligned_bit_structure.py and opencxl/util/number.py at concrete bytes and numbers.
use opencxl_core.Prelude.{
  ℕ, ◌+◌, ◌-◌, ◌*◌, ◌^◌, ◌≤◌, ◌≡◌, refl, inr, ◌↔◌, arith, [], ◌∷◌, ok, err, overflow_error,
}
use opencxl_core.Bytes.{
  ShareableByteArray, get_item, set_item, put_slice, to_bytes, write_bytes, read_bytes, blend,
  write_whole, write_bits, read_whole, read_bits,
}
use opencxl_core.Bytes.Laws.{
  read_bytes-write_bytes, read_bytes-write_bytes_disjoint, write_bytes_overflow,
}
use opencxl_core.Number.{
  bswap16, bswap32, split_int, extract_upper, extract_lower, round_up_to_power_of_2,
}
use opencxl_core.Number.Laws.{
  bswap16-bswap16, bswap32-bswap32, join, join-split_int, extract_upper-extract_lower,
}

-- Eight bytes of a buffer of ten.
abbrev window : ShareableByteArray
window = record { buffer = 1 ∷ 2 ∷ 3 ∷ 4 ∷ 5 ∷ 6 ∷ 7 ∷ 8 ∷ 9 ∷ 10 ∷ []; size = 8; offset = 1 }

abbrev written : ShareableByteArray
written = record window { buffer = 1 ∷ 2 ∷ 3 ∷ 0x34 ∷ 0x12 ∷ 6 ∷ 7 ∷ 8 ∷ 9 ∷ 10 ∷ [] }

window_write : write_bytes window 2 3 0x1234 ≡ ok written
unfolding write_bytes put_slice to_bytes
window_write = refl

-- A field of 12 bits over three bytes, and one inside a byte.
bits_test :
    (read_bits window 6 12 ≡ ok 12)
    × (write_bits window 2 4 0xf
        ≡ ok (record window { buffer = 1 ∷ 0x3e ∷ 3 ∷ 4 ∷ 5 ∷ 6 ∷ 7 ∷ 8 ∷ 9 ∷ 10 ∷ [] }))
unfolding read_bits read_whole write_bits write_whole blend get_item set_item
bits_test = (refl, refl)

round_up_test : round_up_to_power_of_2 0x1001 ≡ 0x2000
unfolding round_up_to_power_of_2
round_up_test = refl

read_bytes-write_bytes_example :
    (a : ShareableByteArray) × (write_bytes window 2 3 0x1234 ≡ ok a) × (read_bytes a 2 3 ≡ 0x1234)
read_bytes-write_bytes_example =
    read_bytes-write_bytes window 2 3 0x1234 (omega arith) (omega arith) (omega arith)

read_bytes-write_bytes_disjoint_example : read_bytes written 4 7 ≡ read_bytes window 4 7
read_bytes-write_bytes_disjoint_example =
    read_bytes-write_bytes_disjoint window 2 3 0x1234 4 7 (omega arith) (omega arith) (omega arith)
      (inr (omega arith)) window_write

write_bytes_overflow_test :
    (write_bytes window 2 3 0x12345 ≡ err overflow_error) ↔ (256 ^ 2 ≤ 0x12345)
write_bytes_overflow_test = write_bytes_overflow window 2 3 0x12345 (omega arith)

bswap16-bswap16_test : bswap16 (bswap16 0x1234) ≡ 0x1234
bswap16-bswap16_test = bswap16-bswap16 0x1234 (omega arith)

bswap32-bswap32_test : bswap32 (bswap32 0x12345678) ≡ 0x12345678
bswap32-bswap32_test = bswap32-bswap32 0x12345678 (omega arith)

join-split_int_test : join 8 (split_int 0x123456 32 8) 0 ≡ 0x123456
join-split_int_test = join-split_int 8 4 0x123456 (omega arith) (omega arith)

extract_upper-extract_lower_test :
    (upper : ℕ) × (lower : ℕ) × (extract_upper 0xd2 5 12 ≡ ok upper)
    × (extract_lower 0xd2 (12 - 5) 12 ≡ ok lower)
    × (upper * 2 ^ (12 - 5) + lower ≡ 0xd2)
extract_upper-extract_lower_test = extract_upper-extract_lower 0xd2 5 12 (omega arith) (omega arith)

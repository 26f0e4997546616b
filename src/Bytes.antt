-- ===== src/Bytes.antt =====
-- opencxl/util/unaligned_bit_structure.py: `ShareableByteArray`, a window on a buffer of bytes, with
-- its reads and writes of little-endian numbers and of bit fields. A buffer is one list; two windows
-- on one buffer (`create_shared`) are two values of `size` and `offset` beside it.
pub mod Laws
use Prim.Native.Nat.{bit_and, bit_or}
use opencxl_core.Prelude.{
  ℕ, zero, suc, ◌+◌, ◌-◌, ◌*◌, ◌/◌, ◌%◌, ◌^◌, Bool, List, [], ◌∷◌, ◌++◌, Option, none, some,
  if◌then◌else◌, ltb, leb, ◌==◌, length, get_elem?, set, take, drop, replicate, Result, ok, err,
  ◌>>=◌, ◌>>◌, guard, value_error, index_error, overflow_error, exception,
}
use opencxl_core.Prelude.Bits.{shl, shr, low_mask, and_not}

pub record ShareableByteArray : Type 0 where
  pub buffer : List ℕ
  pub size : ℕ
  pub offset : ℕ

-- `ShareableByteArray(size)`.
unfoldable pub new_array : ℕ → ShareableByteArray
new_array size = record { buffer = replicate size 0; size = size; offset = 0 }

-- `ShareableByteArray(size, data, offset)` with another array: the buffer is shared. An empty array
-- is no data to Python's `not`, and gives a new buffer.
unfoldable pub create_shared : ShareableByteArray → ℕ → ℕ → ShareableByteArray
create_shared a size offset = record {
  buffer = if a.size == 0 then replicate size 0 else a.buffer;
  size = size;
  offset = offset;
}

unfoldable pub get_item : ShareableByteArray → ℕ → Result ℕ
get_item a index = elim (get_elem? a.buffer (a.offset + index)) [
  | none ↦ err index_error
  | some b ↦ ok b
]

-- A `bytearray` takes the numbers below 256, at an index that it has.
unfoldable pub set_item : ShareableByteArray → ℕ → ℕ → Result ShareableByteArray
set_item a index value = elim (get_elem? a.buffer (a.offset + index)) [
  | none ↦ err index_error
  | some b ↦
      if ltb value 256
      then ok (record a { buffer = set a.buffer (a.offset + index) value })
      else err value_error
]

-- `xs[start:end]` and `xs[start:end] = vs`: a slice that starts after its end is empty, at its start.
unfoldable pub slice : List ℕ → ℕ → ℕ → List ℕ
slice xs start end = take (end - start) (drop start xs)

unfoldable pub put_slice : List ℕ → ℕ → ℕ → List ℕ → List ℕ
put_slice xs start end vs = take start xs ++ (vs ++ drop (start + (end - start)) xs)

-- `int.from_bytes(bs, "little")`, and `value.to_bytes(length, "little")` of a number that fits.
unfoldable pub from_bytes : List ℕ → ℕ
from_bytes [] = 0
from_bytes (b ∷ bs) = b + 256 * from_bytes bs

unfoldable pub to_bytes : ℕ → ℕ → List ℕ
to_bytes zero value = []
to_bytes (suc length) value = value % 256 ∷ to_bytes length (value / 256)

unfoldable pub to_int : ShareableByteArray → ℕ
to_int a = from_bytes (slice a.buffer a.offset (a.offset + a.size))

unfoldable pub to_bytes_of : ShareableByteArray → List ℕ
to_bytes_of a = slice a.buffer a.offset (a.offset + a.size)

-- `reset`, without data (an empty list is no data either) and with data.
unfoldable pub reset : ShareableByteArray → List ℕ → ShareableByteArray
reset a [] = record a {
  buffer = put_slice a.buffer a.offset (a.offset + a.size) (replicate a.size 0);
}
reset a (b ∷ bs) = record a {
  buffer = put_slice a.buffer a.offset (a.offset + a.size) (b ∷ bs);
  size = length (b ∷ bs);
}

-- A negative size, at which `resize` raises, is not a natural number.
unfoldable pub resize : ShareableByteArray → ℕ → ShareableByteArray
resize a new_size =
    if ltb a.size new_size
    then record a { buffer = a.buffer ++ replicate (new_size - a.size) 0; size = new_size }
    else record a { buffer = take new_size a.buffer; size = new_size }

-- `to_bytes` raises `ValueError` at a negative length, and `OverflowError` at a number too large.
unfoldable pub write_bytes : ShareableByteArray → ℕ → ℕ → ℕ → Result ShareableByteArray
write_bytes a start_offset end_offset value =
    let length = end_offset + 1 - start_offset in
    let start = start_offset + a.offset in
    let end = end_offset + a.offset in
    if ltb (end_offset + 1) start_offset
    then err value_error
    else if leb (256 ^ length) value
    then err overflow_error
    else ok (record a { buffer = put_slice a.buffer start (end + 1) (to_bytes length value) })

unfoldable pub read_bytes : ShareableByteArray → ℕ → ℕ → ℕ
read_bytes a start_offset end_offset =
    let start = start_offset + a.offset in
    let end = end_offset + a.offset in from_bytes (slice a.buffer start (end + 1))

-- `self[i] &= ~mask`, then `self[i] |= bits`.
unfoldable pub blend : ShareableByteArray → ℕ → ℕ → ℕ → Result ShareableByteArray
blend a i mask bits = do
  b ← get_item a i
  a' ← set_item a i (and_not b mask)
  b' ← get_item a' i
  set_item a' i (bit_or b' bits)

-- The loop of `write_bits` over the whole bytes, `n` of them from `i` on, and the rest of the value.
unfoldable pub write_whole : ShareableByteArray → ℕ → ℕ → ℕ → Result (ShareableByteArray × ℕ)
write_whole a i zero value = ok (a, value)
write_whole a i (suc n) value = do
  a' ← set_item a i (bit_and value 0xff)
  write_whole a' (i + 1) n (shr value 8)

-- `write_bits`, for a width of at least 1.
unfoldable pub write_bits : ShareableByteArray → ℕ → ℕ → ℕ → Result ShareableByteArray
write_bits a offset width value =
    let byte_offset = offset / 8 in
    let bit_offset = offset % 8 in
    let end_offset = offset + width - 1 in
    let byte_end_offset = end_offset / 8 in
    let bit_end_offset = end_offset % 8 in
    if byte_offset == byte_end_offset
    then (let mask = shl (shl 1 width - 1) bit_offset in
        blend a byte_offset mask (bit_and (shl value bit_offset) mask))
    else (do
      let mask1 = shl (shl 1 (8 - bit_offset) - 1) bit_offset
      let mask2 = shl 1 (bit_end_offset + 1) - 1
      a₁ ← blend a byte_offset mask1 (bit_and (shl value bit_offset) mask1)
      (a₂, rest) ←
          write_whole a₁ (byte_offset + 1) (byte_end_offset - (byte_offset + 1))
            (shr value (8 - bit_offset))
      blend a₂ byte_end_offset mask2 (bit_and rest mask2))

-- The loop of `read_bits` over the whole bytes, from the last one down: `n` of them above `low`.
unfoldable pub read_whole : ShareableByteArray → ℕ → ℕ → ℕ → Result ℕ
read_whole a low zero result = ok result
read_whole a low (suc n) result = do
  b ← get_item a (low + suc n)
  read_whole a low n (bit_or (shl result 8) b)

-- `read_bits`, for a width of at least 1.
unfoldable pub read_bits : ShareableByteArray → ℕ → ℕ → Result ℕ
read_bits a offset width =
    let byte_offset = offset / 8 in
    let bit_offset = offset % 8 in
    let end_offset = offset + width - 1 in
    let byte_end_offset = end_offset / 8 in
    let bit_end_offset = end_offset % 8 in
    if byte_offset == byte_end_offset
    then (do
      b ← get_item a byte_offset
      ok (shr (bit_and b (shl (shl 1 width - 1) bit_offset)) bit_offset))
    else (do
      let mask1 = shl (shl 1 (8 - bit_offset) - 1) bit_offset
      let mask2 = shl 1 (bit_end_offset + 1) - 1
      last ← get_item a byte_end_offset
      result ← read_whole a byte_offset (byte_end_offset - 1 - byte_offset) (bit_and last mask2)
      first ← get_item a byte_offset
      ok (bit_or (shl result (8 - bit_offset)) (shr (bit_and first mask1) bit_offset)))

-- `copy_from`: the bytes of another array, written one by one.
unfoldable pub copy_items : ShareableByteArray → List ℕ → ℕ → Result ShareableByteArray
copy_items a [] dest_offset = ok a
copy_items a (b ∷ bs) dest_offset = do
  a' ← set_item a dest_offset b
  copy_items a' bs (dest_offset + 1)

unfoldable pub copy_from : ShareableByteArray → ShareableByteArray → ℕ → Result ShareableByteArray
copy_from a other dest_offset = copy_items a (to_bytes_of other) dest_offset

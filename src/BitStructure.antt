-- ===== src/BitStructure.antt =====
-- opencxl/util/unaligned_bit_structure.py: the fields of an `UnalignedBitStructure`, the check that the
-- constructor makes of them, and the size of a structure. A field is without its name, its
-- attribute and its default, which the check does not read.
pub mod Partition
pub mod Tables
use opencxl_core.Prelude.{
  ℕ, zero, suc, ◌+◌, ◌-◌, ◌*◌, ◌/◌, ◌%◌, Bool, true, false, ◌&&◌, ◌||◌, not, List, [], ◌∷◌,
  if◌then◌else◌, ltb, leb, ◌==◌, Result, ok, err, ◌>>=◌, ◌>>◌, guard, exception, index_error,
}

pub data DataField : Type 0 where
  bit_field : ℕ → ℕ → DataField  -- its first and its last bit
  byte_field : ℕ → ℕ → DataField  -- its first and its last byte
  dynamic_byte_field : ℕ → ℕ → DataField  -- its first byte and its length
  structure_field : ℕ → ℕ → DataField  -- its first and its last byte

unfoldable pub is_bit_field : DataField → Bool
is_bit_field (bit_field start end) = true
is_bit_field _ = false

unfoldable pub is_byte_or_structure_field : DataField → Bool
is_byte_or_structure_field (byte_field start end) = true
is_byte_or_structure_field (structure_field start end) = true
is_byte_or_structure_field _ = false

unfoldable pub is_dynamic_byte_field : DataField → Bool
is_dynamic_byte_field (dynamic_byte_field start length) = true
is_dynamic_byte_field _ = false

-- How many of the fields are of a kind.
unfoldable pub count_fields : (DataField → Bool) → List DataField → ℕ
count_fields kind [] = 0
count_fields kind (f ∷ fs) = (if kind f then 1 else 0) + count_fields kind fs

abbrev is_empty : List DataField → Bool
is_empty [] = true
is_empty (f ∷ fs) = false

-- One field against `last_offset + 1`, with the fields behind it; what is returned is the next
-- value of `last_offset + 1`.
unfoldable pub check_field : DataField → List DataField → ℕ → Result ℕ
check_field (bit_field start end) fs next =
    guard (start == next) exception >> (guard (leb start end) exception >> ok (end + 1))
check_field (byte_field start end) fs next =
    guard (start == next) exception >> (guard (leb start end) exception >> ok (end + 1))
check_field (structure_field start end) fs next =
    guard (start == next) exception >> (guard (leb start end) exception >> ok (end + 1))
check_field (dynamic_byte_field start length) fs next =
    guard (start == next) exception >> (guard (is_empty fs) exception >> ok (next + length))

unfoldable pub check_offsets : List DataField → ℕ → Result ℕ
unfolding check_field
check_offsets [] next = ok next
check_offsets (f ∷ fs) next = check_field f fs next >>= check_offsets fs

-- `_check_if_fields_are_valid`, with `last_offset + 1` of the last field. Every exception is of one kind,
-- so the order of the tests is not seen.
unfoldable pub check_if_fields_are_valid : List DataField → Result ℕ
unfolding count_fields is_bit_field is_byte_or_structure_field is_dynamic_byte_field check_offsets
check_if_fields_are_valid fs =
    let has_bit_fields = ltb 0 (count_fields is_bit_field fs) in
    let has_others = ltb 0 (count_fields is_byte_or_structure_field fs) in
    guard (not (has_bit_fields && has_others)) exception
    >> (guard (leb (count_fields is_dynamic_byte_field fs) 1) exception
        >> (check_offsets fs 0 >>= λ next.
            guard (not (has_bit_fields && not ((next % 8) == 0))) exception >> ok next))

-- `get_size`, in bytes; `fields[-1]` raises without fields.
unfoldable pub get_size : List DataField → Result ℕ
get_size [] = err index_error
get_size (bit_field start end ∷ []) = ok ((end + 1) / 8)
get_size (byte_field start end ∷ []) = ok (end + 1)
get_size (structure_field start end ∷ []) = ok (end + 1)
get_size (dynamic_byte_field start length ∷ []) = ok (start + length)
get_size (f ∷ g ∷ fs) = get_size (g ∷ fs)

-- ===== src/BitStructure/Partition.antt =====
-- opencxl/util/unaligned_bit_structure.py: the fields that pass the check lie side by side.
use opencxl_core.Prelude.{
  ℕ, ◌+◌, ◌/◌, ◌≤◌, ◌≡◌, sym, arith, Bool, false, ◌&&◌, List, [], ◌∷◌, if◌then◌else◌, ltb, leb, ok,
  Result-cases, inl, inr,
}
use opencxl_core.BitStructure.{
  DataField, bit_field, byte_field, dynamic_byte_field, structure_field, count_fields, is_bit_field,
  check_field, check_offsets, check_if_fields_are_valid, get_size,
}

-- The field has the offset `x`.
unfoldable pub has_offset : ℕ → DataField → Bool
has_offset x (bit_field start end) = leb start x && leb x end
has_offset x (byte_field start end) = leb start x && leb x end
has_offset x (structure_field start end) = leb start x && leb x end
has_offset x (dynamic_byte_field start length) = leb start x && ltb x (start + length)

-- A checked field has the offsets from where it was expected up to where the next is.
check_field-has_offset :
    (f : DataField) (fs : List DataField) (next n x : ℕ)
    → check_field f fs next ≡ ok n
    → (next ≤ n) × (has_offset x f ≡ leb next x && ltb x n)
unfolding check_field has_offset
check_field-has_offset (bit_field start end) fs next n x e = ground arith
check_field-has_offset (byte_field start end) fs next n x e = ground arith
check_field-has_offset (structure_field start end) fs next n x e = ground arith
check_field-has_offset (dynamic_byte_field start length) fs next n x e = ground arith

check_offsets-count_fields :
    (fs : List DataField) (next n x : ℕ)
    → check_offsets fs next ≡ ok n
    → (next ≤ n) × (count_fields (has_offset x) fs ≡ (if leb next x && ltb x n then 1 else 0))
unfolding check_offsets count_fields
check_offsets-count_fields [] next n x e = ground arith
check_offsets-count_fields (f ∷ fs) next n x e = elim (Result-cases (check_field f fs next)) [
  | inr (y, q) ↦ absurd (ground arith)
  | inl (m, q) ↦
      let first = check_field-has_offset f fs next m x q in
      let rest = check_offsets-count_fields fs m n x (ground arith) in ground arith
]

-- The fields of a structure that passes the check divide it: every offset below the end of the last
-- field is in exactly one field, and every other offset in none.
pub check_if_fields_are_valid-count_fields :
    (fs : List DataField) (n x : ℕ)
    → check_if_fields_are_valid fs ≡ ok n
    → count_fields (has_offset x) fs ≡ (if ltb x n then 1 else 0)
unfolding check_if_fields_are_valid
check_if_fields_are_valid-count_fields fs n x e = elim (Result-cases (check_offsets fs 0)) [
  | inr (y, q) ↦ absurd (ground arith)
  | inl (m, q) ↦ let parts = check_offsets-count_fields fs 0 m x q in ground arith
]

-- The last field is a bit field.
unfoldable pub ends_in_bits : List DataField → Bool
ends_in_bits [] = false
ends_in_bits (f ∷ []) = is_bit_field f
ends_in_bits (f ∷ g ∷ fs) = ends_in_bits (g ∷ fs)

check_offsets-get_size :
    (f : DataField) (fs : List DataField) (next n : ℕ)
    → check_offsets (f ∷ fs) next ≡ ok n
    → get_size (f ∷ fs) ≡ ok (if ends_in_bits (f ∷ fs) then n / 8 else n)
unfolding check_offsets check_field get_size ends_in_bits is_bit_field
check_offsets-get_size (bit_field start end) [] next n e = ground arith
check_offsets-get_size (byte_field start end) [] next n e = ground arith
check_offsets-get_size (structure_field start end) [] next n e = ground arith
check_offsets-get_size (dynamic_byte_field start length) [] next n e = ground arith
check_offsets-get_size f (g ∷ fs) next n e = elim (Result-cases (check_field f (g ∷ fs) next)) [
  | inr (y, q) ↦ absurd (ground arith)
  | inl (m, q) ↦
      let rest : check_offsets (g ∷ fs) m ≡ ok n = ground arith in
      check_offsets-get_size g fs m n rest
]

-- The size of a structure with a field that passes the check is the end of its last field, in bytes: the
-- number of bits divided by 8 where the last field is a bit field, and the number of bytes otherwise.
pub get_size-check_if_fields_are_valid :
    (f : DataField) (fs : List DataField) (n : ℕ)
    → check_if_fields_are_valid (f ∷ fs) ≡ ok n
    → get_size (f ∷ fs) ≡ ok (if ends_in_bits (f ∷ fs) then n / 8 else n)
unfolding check_if_fields_are_valid
get_size-check_if_fields_are_valid f fs n e = elim (Result-cases (check_offsets (f ∷ fs) 0)) [
  | inr (y, q) ↦ absurd (ground arith)
  | inl (m, q) ↦
      let same : m ≡ n = ground arith in rw (sym same) (check_offsets-get_size f fs 0 m q)
]

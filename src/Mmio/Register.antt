-- ===== src/Mmio/Register.antt =====
-- opencxl/util/unaligned_bit_structure.py: `BitMaskedBitStructure`, the registers behind a BAR. A register is its
-- mask with its fields; the bytes are a window on a buffer, which a field that is a structure shares. Log
-- messages are left out, and the fields of a dynamic length, which such a register refuses.
pub mod Written
pub mod Writable
pub mod Masked
use Prim.Native.Nat.{bit_and, bit_or}
use native.Mathlib.Nat.{pow-suc}
use opencxl_core.Prelude.{
  some, [], ◌∷◌, ℕ, zero, suc, ◌+◌, ◌*◌, ◌^◌, ◌-◌, ◌≤◌, ◌<◌, ◌≡◌, refl, ap, ◌∙◌, sym, arith, Bool,
  true, false, ◌&&◌, if◌then◌else◌, leb, Result, ok, ◌>>=◌, length, subst,
}
use opencxl_core.Prelude.Bits.{and_not, pow_add, bit_or-lt, bit_and-lt}
use opencxl_core.Bytes.{ShareableByteArray}
use opencxl_core.Bytes
use opencxl_core.Bytes.Laws.{written_bytes, write_bytes_fits, AreBytes, read_bytes-lt}
use opencxl_core.Number.{to_be16}
use opencxl_core.Mmio.{
  RegisterOps, MmioManager, MemRequest, mem_read, mem_write, completion, get_register_and_offset,
  process_mmio_packet,
}
use opencxl_core.Mmio.Laws.{IsMasked, process_mmio_packet-write_read}

-- The mask and whether the fields are bit fields; a field has its first byte and its last.
mutual
  pub data MaskedBits : Type 0 where
    masked_bits : ShareableByteArray → Bool → Fields → MaskedBits

  pub data Fields : Type 0 where
    no_fields : Fields
    byte_field : ℕ → ℕ → Fields → Fields
    structure_field : ℕ → ℕ → MaskedBits → Fields → Fields

-- `(current_value & ~mask) | (value & mask)`
abbrev pub blended : ℕ → ℕ → ℕ → ℕ
blended current mask value = bit_or (and_not current mask) (bit_and value mask)

-- The window of a field that is a structure.
abbrev pub window : ShareableByteArray → ℕ → ℕ → ShareableByteArray
window a start end = record a { size = end + 1 - start; offset = start + a.offset }

-- `write_bytes` and `read_bytes`, with the loop of `_get_structure_field` over the fields.
unfoldable mutual
  pub write_masked : MaskedBits → ShareableByteArray → ℕ → ℕ → ℕ → Result ShareableByteArray
  write_masked (masked_bits bitmask bit_fields content) a start end value =
      let mask = Bytes.read_bytes bitmask start end in
      let current = Bytes.read_bytes a start end in
      let masked = blended current mask value in
      let in_field = write_field content a start end masked in
      if bit_fields then Bytes.write_bytes a start end masked else in_field

  pub write_field : Fields → ShareableByteArray → ℕ → ℕ → ℕ → Result ShareableByteArray
  write_field no_fields a start end value = Bytes.write_bytes a start end value
  write_field (byte_field first last rest) a start end value =
      let later = write_field rest a start end value in
      if leb first start && leb start last then Bytes.write_bytes a start end value else later
  write_field (structure_field first last r rest) a start end value =
      let later = write_field rest a start end value in
      let inside = write_masked r (window a first last) (start - first) (end - first) value in
      if leb first start && leb start last
      then (inside >>= λ b. ok (record a { buffer = b.buffer }))
      else later

unfoldable mutual
  pub read_masked : MaskedBits → ShareableByteArray → ℕ → ℕ → ℕ
  read_masked (masked_bits bitmask bit_fields content) a start end =
      let in_field = read_field content a start end in
      if bit_fields then Bytes.read_bytes a start end else in_field

  pub read_field : Fields → ShareableByteArray → ℕ → ℕ → ℕ
  read_field no_fields a start end = Bytes.read_bytes a start end
  read_field (byte_field first last rest) a start end =
      let later = read_field rest a start end in
      if leb first start && leb start last then Bytes.read_bytes a start end else later
  read_field (structure_field first last r rest) a start end =
      let later = read_field rest a start end in
      let inside = read_masked r (window a first last) (start - first) (end - first) in
      if leb first start && leb start last then inside else later

-- What a write leaves of a value, where the bytes were `current`: the register's mask lets its bits
-- through, and then the mask of the structure that has the first byte, if one has.
unfoldable mutual
  pub let_through : MaskedBits → ℕ → ℕ → ℕ → ℕ → ℕ
  let_through (masked_bits bitmask bit_fields content) start end current value =
      let masked = blended current (Bytes.read_bytes bitmask start end) value in
      let in_field = through_field content start end current masked in
      if bit_fields then masked else in_field

  pub through_field : Fields → ℕ → ℕ → ℕ → ℕ → ℕ
  through_field no_fields start end current value = value
  through_field (byte_field first last rest) start end current value =
      let later = through_field rest start end current value in
      if leb first start && leb start last then value else later
  through_field (structure_field first last r rest) start end current value =
      let later = through_field rest start end current value in
      let inside = let_through r (start - first) (end - first) current value in
      if leb first start && leb start last then inside else later

pub record MaskedRegister : Type 0 where
  pub bits : MaskedBits
  pub bytes : ShareableByteArray

-- The registers of the program, for the MMIO manager.
abbrev pub masked_ops : RegisterOps MaskedRegister
masked_ops = record {
  size = λ r. r.bytes.size;
  read_bytes = λ r start end. ok (read_masked r.bits r.bytes start end);
  write_bytes = λ r start end value.
      write_masked r.bits r.bytes start end value >>= λ a. ok (record r { bytes = a });
}

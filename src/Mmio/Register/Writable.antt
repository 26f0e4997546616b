-- ===== src/Mmio/Register/Writable.antt =====
-- opencxl/util/unaligned_bit_structure.py: which bits of a `BitMaskedBitStructure` a write can change.
use opencxl_core.Prelude.{
  ℕ, ◌-◌, ◌≡◌, refl, arith, Bool, true, false, ◌&&◌, if◌then◌else◌, leb, ◌==◌,
}
use opencxl_core.Prelude.Bits.{bit, bit-blend}
use opencxl_core.Bytes
use opencxl_core.Mmio.Register.{
  MaskedBits, masked_bits, Fields, no_fields, byte_field, structure_field, let_through,
  through_field, blended,
}

-- Bit `i` of the bytes from `start` to `end` is in the mask, and in that of the structure with the first byte.
unfoldable mutual
  pub is_writable : MaskedBits → ℕ → ℕ → ℕ → Bool
  is_writable (masked_bits bitmask bit_fields content) start end i =
      let in_field = field_is_writable content start end i in
      (bit (Bytes.read_bytes bitmask start end) i == 1) && (if bit_fields then true else in_field)

  pub field_is_writable : Fields → ℕ → ℕ → ℕ → Bool
  field_is_writable no_fields start end i = true
  field_is_writable (byte_field first last rest) start end i =
      let later = field_is_writable rest start end i in
      if leb first start && leb start last then true else later
  field_is_writable (structure_field first last r rest) start end i =
      let later = field_is_writable rest start end i in
      let inside = is_writable r (start - first) (end - first) i in
      if leb first start && leb start last then inside else later

abbrev pub choose : Bool → ℕ → ℕ → ℕ
choose b value current = if b then value else current

mutual
  unfolding let_through is_writable

  pub let_through-bit :
      (r : MaskedBits) (start end current value i : ℕ)
      → bit (let_through r start end current value) i
        ≡ choose (is_writable r start end i) (bit value i) (bit current i)
  let_through-bit (masked_bits bitmask true content) start end current value i =
      let blend = bit-blend i current (Bytes.read_bytes bitmask start end) value in
      ground (arith, blend)
  let_through-bit (masked_bits bitmask false content) start end current value i =
      let mask = Bytes.read_bytes bitmask start end in
      let blend = bit-blend i current mask value in
      let later = through_field-bit content start end current (blended current mask value) i in
      ground (arith, blend, later)

  through_field-bit :
      (content : Fields) (start end current value i : ℕ)
      → bit (through_field content start end current value) i
        ≡ choose (field_is_writable content start end i) (bit value i) (bit current i)
  through_field-bit no_fields start end current value i = refl
  through_field-bit (byte_field first last rest) start end current value i =
      ground (arith, through_field-bit rest start end current value i)
  through_field-bit (structure_field first last r rest) start end current value i = ground (
    arith,
    through_field-bit rest start end current value i,
    let_through-bit r (start - first) (end - first) current value i,
  )

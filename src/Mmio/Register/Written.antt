-- ===== src/Mmio/Register/Written.antt =====
-- opencxl/util/unaligned_bit_structure.py: what a read of a `BitMaskedBitStructure` reads and a write writes, whichever
-- structure among its fields has the bytes.
use opencxl_core.Prelude.{ℕ, ◌+◌, ◌-◌, ◌≤◌, ◌≡◌, refl, ◌∙◌, arith, true, false, ok, ◌>>=◌}
use opencxl_core.Bytes.{ShareableByteArray}
use opencxl_core.Bytes
use opencxl_core.Mmio.Register.{
  MaskedBits, masked_bits, Fields, no_fields, byte_field, structure_field, window, write_masked,
  write_field, read_masked, read_field, let_through, through_field,
}

window-read :
    (a : ShareableByteArray) (first last start end : ℕ)
    → first ≤ start
    → start ≤ end
    → Bytes.read_bytes (window a first last) (start - first) (end - first)
      ≡ Bytes.read_bytes a start end
unfolding Bytes.read_bytes
window-read a first last start end low order =
    let s : start - first + (first + a.offset) ≡ start + a.offset = omega arith in
    let e : end - first + (first + a.offset) ≡ end + a.offset = omega arith in rw (s, e) refl

window-write :
    (a : ShareableByteArray) (first last start end value : ℕ)
    → first ≤ start
    → start ≤ end
    → (Bytes.write_bytes (window a first last) (start - first) (end - first) value >>= λ b.
        ok (record a { buffer = b.buffer }))
      ≡ Bytes.write_bytes a start end value
unfolding Bytes.write_bytes
window-write a first last start end value low order =
    let s : start - first + (first + a.offset) ≡ start + a.offset = omega arith in
    let e : end - first + (first + a.offset) ≡ end + a.offset = omega arith in
    let n : end - first + 1 - (start - first) ≡ end + 1 - start = omega arith in
    rw (s, e, n) (ground arith)

-- All windows read the same bytes of the buffer.
mutual
  unfolding read_masked

  pub read_masked_lem :
      (r : MaskedBits) (a : ShareableByteArray) (start end : ℕ)
      → start ≤ end
      → read_masked r a start end ≡ Bytes.read_bytes a start end
  read_masked_lem (masked_bits bitmask true _) a start end order = refl
  read_masked_lem (masked_bits bitmask false content) a start end order =
      read_field_lem content a start end order

  read_field_lem :
      (fields : Fields) (a : ShareableByteArray) (start end : ℕ)
      → start ≤ end
      → read_field fields a start end ≡ Bytes.read_bytes a start end
  read_field_lem no_fields a start end order = refl
  read_field_lem (byte_field first last rest) a start end order =
      ground (arith, read_field_lem rest a start end order)
  read_field_lem (structure_field first last r rest) a start end order =
      let later = read_field_lem rest a start end order in
      let inside : first ≤ start
          → read_masked r (window a first last) (start - first) (end - first)
            ≡ Bytes.read_bytes a start end =
        λ low.
          read_masked_lem r (window a first last) (start - first) (end - first) (omega arith)
          ∙ window-read a first last start end low order in
      ground (arith, later, inside)

-- A write puts what the masks let through into the buffer.
mutual
  unfolding write_masked let_through

  pub write_masked_lem :
      (r : MaskedBits) (a : ShareableByteArray) (start end value : ℕ)
      → start ≤ end
      → write_masked r a start end value
        ≡ Bytes.write_bytes a start end
            (let_through r start end (Bytes.read_bytes a start end) value)
  write_masked_lem (masked_bits bitmask true _) a start end value order = refl
  write_masked_lem (masked_bits bitmask false content) a start end value order =
      write_field_lem content a start end _ order

  write_field_lem :
      (fields : Fields) (a : ShareableByteArray) (start end value : ℕ)
      → start ≤ end
      → write_field fields a start end value
        ≡ Bytes.write_bytes a start end
            (through_field fields start end (Bytes.read_bytes a start end) value)
  write_field_lem no_fields a start end value order = refl
  write_field_lem (byte_field first last rest) a start end value order =
      ground (arith, write_field_lem rest a start end value order)
  write_field_lem (structure_field first last r rest) a start end value order =
      let later = write_field_lem rest a start end value order in
      let inside : first ≤ start
          → (write_masked r (window a first last) (start - first) (end - first) value >>= λ b.
              ok (record a { buffer = b.buffer }))
            ≡ Bytes.write_bytes a start end
                (let_through r (start - first) (end - first) (Bytes.read_bytes a start end) value) =
        λ low.
          let inner =
            write_masked_lem r (window a first last) (start - first) (end - first) value
              (omega arith) in
          rw (inner, window-read a first last start end low order)
            (window-write a first last start end _ low order) in
      ground (arith, later, inside)

-- ===== src/Mmio/Register/Masked.antt =====
-- opencxl/pci/component/mmio_manager.py with the registers of opencxl/util/unaligned_bit_structure.py behind it: what
-- a register keeps of a value fits, and is what is read back.
use Prim.Native.Nat.{bit_and}
use native.Mathlib.Nat.{pow-suc}
use opencxl_core.Prelude.{
  ℕ, zero, suc, ◌+◌, ◌*◌, ◌^◌, ◌-◌, ◌≤◌, ◌<◌, ◌≡◌, refl, ap, ◌∙◌, sym, arith, true, false, ok,
  ◌>>=◌, length, subst,
}
use opencxl_core.Prelude.Bits.{and_not, pow_add, bit_or-lt, bit_and-lt}
use opencxl_core.Bytes.{ShareableByteArray}
use opencxl_core.Bytes
use opencxl_core.Bytes.Laws.{written_bytes, write_bytes_fits, AreBytes, read_bytes-lt}
use opencxl_core.Mmio.Laws.{IsMasked}
use opencxl_core.Mmio.Register.{
  MaskedBits, masked_bits, Fields, no_fields, byte_field, structure_field, blended, let_through,
  through_field, MaskedRegister, masked_ops,
}
use opencxl_core.Mmio.Register.Written.{read_masked_lem, write_masked_lem}

pow_bytes : (n : ℕ) → 256 ^ n ≡ 2 ^ (n * 8)
pow_bytes zero = refl
pow_bytes (suc n) =
    let count : suc n * 8 ≡ n * 8 + 8 = omega arith in
    pow-suc 256 n ∙ omega (arith, pow_bytes n, pow_add (n * 8) 8) ∙ sym (ap (λ t. 2 ^ t) count)

-- The masks are made of bytes.
unfoldable mutual
  pub AreMasks : MaskedBits → Type 0
  AreMasks (masked_bits bitmask bit_fields content) =
      AreBytes bitmask.buffer × FieldsAreMasks content

  pub FieldsAreMasks : Fields → Type 0
  FieldsAreMasks no_fields = Unit
  FieldsAreMasks (byte_field first last rest) = FieldsAreMasks rest
  FieldsAreMasks (structure_field first last r rest) = AreMasks r × FieldsAreMasks rest

blended-lt :
    (current mask value k : ℕ) → current < 2 ^ k → mask < 2 ^ k → blended current mask value < 2 ^ k
blended-lt current mask value k c m =
    bit_or-lt k (and_not current mask) (bit_and value mask) (omega arith)
      (bit_and-lt k value mask m)

mask-lt :
    (bitmask : ShareableByteArray) (start end : ℕ)
    → start ≤ end
    → AreBytes bitmask.buffer
    → Bytes.read_bytes bitmask start end < 2 ^ ((end + 1 - start) * 8)
mask-lt bitmask start end order bytes =
    subst (λ t. Bytes.read_bytes bitmask start end < t) (pow_bytes (end + 1 - start))
      (read_bytes-lt bitmask start end order bytes)

mutual
  unfolding let_through AreMasks

  let_through-lt :
      (r : MaskedBits) (start end current value : ℕ)
      → AreMasks r
      → start ≤ end
      → current < 2 ^ ((end + 1 - start) * 8)
      → let_through r start end current value < 2 ^ ((end + 1 - start) * 8)
  let_through-lt (masked_bits bitmask true content) start end current value s order c =
      blended-lt current (Bytes.read_bytes bitmask start end) value ((end + 1 - start) * 8) c
        (mask-lt bitmask start end order s.0)
  let_through-lt (masked_bits bitmask false content) start end current value s order c =
      through_field-lt content start end current _ s.1 order c (
        blended-lt current (Bytes.read_bytes bitmask start end) value ((end + 1 - start) * 8) c
          (mask-lt bitmask start end order s.0))

  through_field-lt :
      (content : Fields) (start end current value : ℕ)
      → FieldsAreMasks content
      → start ≤ end
      → current < 2 ^ ((end + 1 - start) * 8)
      → value < 2 ^ ((end + 1 - start) * 8)
      → through_field content start end current value < 2 ^ ((end + 1 - start) * 8)
  through_field-lt no_fields start end current value s order c v = v
  through_field-lt (byte_field first last rest) start end current value s order c v =
      ground (arith, through_field-lt rest start end current value s order c v)
  through_field-lt (structure_field first last r rest) start end current value s order c v =
      let later = through_field-lt rest start end current value s.1 order c v in
      let inside : first ≤ start
          → let_through r (start - first) (end - first) current value
            < 2 ^ ((end + 1 - start) * 8) =
        λ low.
          let width : end - first + 1 - (start - first) ≡ end + 1 - start = omega arith in
          subst (λ n. let_through r (start - first) (end - first) current value < 2 ^ (n * 8)) width
            (let_through-lt r (start - first) (end - first) current value s.0 (omega arith)
              (subst (λ n. current < 2 ^ (n * 8)) (sym width) c)) in
      ground (arith, later, inside)

-- The window lies inside the buffer, and all are bytes.
abbrev pub IsSound : MaskedRegister → Type 0
IsSound r =
    (r.bytes.offset + r.bytes.size ≤ length r.bytes.buffer)
    × AreBytes r.bytes.buffer
    × AreMasks r.bits

pub masked_ops-IsMasked :
    IsMasked masked_ops
      (λ r start end current value. let_through r.bits start end current value)
      IsSound
masked_ops-IsMasked r start end value (inside, bytes, masks) order within =
    let a = r.bytes in
    let n = end + 1 - start in
    let current = Bytes.read_bytes a start end in
    let kept = let_through r.bits start end current value in
    let fits =
      let_through-lt r.bits start end current value masks order (mask-lt a start end order bytes) in
    let few : kept < 256 ^ n = subst (λ t. kept < t) (sym (pow_bytes n)) fits in
    let h = write_bytes_fits a start end kept order few in
    let (reads, long, same, _) = written_bytes a start end kept order (omega arith) h in
    (
      current,
      record r {
        bytes = record a {
          buffer =
              Bytes.put_slice a.buffer (start + a.offset) (end + a.offset + 1)
                (Bytes.to_bytes n kept);
        };
      },
      ap ok (read_masked_lem r.bits a start end order),
      ap (λ w. w >>= λ b. ok (record r { bytes = b }))
          (write_masked_lem r.bits a start end value order ∙ h),
      ap ok (read_masked_lem r.bits _ start end order ∙ reads),
      fits,
      refl,
    )

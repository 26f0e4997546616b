-- ===== src/Mmio/Laws.antt =====
-- opencxl/pci/component/mmio_manager.py: which register answers a request, and what a read returns
-- after a write.
use opencxl_core.Prelude.{
  ℕ, suc, ◌+◌, ◌-◌, ◌*◌, ◌^◌, ◌≤◌, ◌<◌, ◌≡◌, sym, ap, subst, ◌∙◌, inl, inr, arith, Bool, false,
  List, [], ◌∷◌, some, leb, ◌==◌, modify, ok, Option-cases,
}
use opencxl_core.Number.{to_be16}
use opencxl_core.Mmio.{
  RegisterOps, BarEntry, MmioManager, mem_read, mem_write, MemRequest, completion, register_of,
  claims, find_register, get_register_and_offset, put_register, send_completion,
  process_mmio_packet,
}

abbrev pub with_register : {R : Type 0} → R → BarEntry R → BarEntry R
with_register r entry = record entry { register = some r }

-- What a sound register promises, `kept` being what it keeps of a value that is written over another: a
-- write inside it returns and has stored what is kept, which fits into the bytes, and leaves the length.
abbrev pub IsMasked : {R : Type 0} → RegisterOps R → (R → ℕ → ℕ → ℕ → ℕ → ℕ) → (R → Type 0) → Type 0
IsMasked {R} ops kept IsSound =
    (r : R) (start end value : ℕ)
    → IsSound r
    → start ≤ end
    → end < ops.size r
    → (old : ℕ) × (r' : R) × (ops.read_bytes r start end ≡ ok old)
      × (ops.write_bytes r start end value ≡ ok r')
      × (ops.read_bytes r' start end ≡ ok (kept r start end old value))
      × (kept r start end old value < 2 ^ ((end + 1 - start) * 8))
      × (ops.size r' ≡ ops.size r)

module _ {R : Type 0} (ops : RegisterOps R) where
  register_of-size :
      (entry : BarEntry R) {r : R} → register_of ops entry ≡ some r → (ops.size r == 0) ≡ false
  register_of-size entry {r} h = ground arith

  claims-some :
      (entry : BarEntry R) (address size : ℕ) {r : R}
      → claims ops entry address size ≡ some r
      → (register_of ops entry ≡ some r)
        × (0 < entry.base_address)
        × (entry.base_address ≤ address)
        × (address + size ≤ entry.base_address + ops.size r)
  unfolding claims
  claims-some entry address size {r} h = elim (Option-cases (register_of ops entry)) [
    | inl missing ↦ absurd (ground arith)
    | inr (r₀, found) ↦ ground arith
  ]

  claims-with_register :
      (entry : BarEntry R) (address size : ℕ) {r : R} (r' : R)
      → claims ops entry address size ≡ some r
      → ops.size r' ≡ ops.size r
      → claims ops (with_register r' entry) address size ≡ some r'
  unfolding claims
  claims-with_register entry address size {r} r' h same =
      let (there, based, low, high) = claims-some entry address size h in
      let nonempty : (ops.size r' == 0) ≡ false = ground (arith, register_of-size entry there) in
      ground arith

  find_register-some :
      (entries : List (BarEntry R)) (start address size : ℕ) {index offset : ℕ} {r : R}
      → find_register ops entries start address size ≡ some (index, r, offset)
      → (k : ℕ) × (index ≡ start + k)
        × (offset + size ≤ ops.size r)
        × ((r' : R)
            → ops.size r' ≡ ops.size r
            → find_register ops (modify entries k (with_register r')) start address size
              ≡ some (index, r', offset))
  unfolding find_register
  find_register-some [] start address size h = absurd (ground arith)
  find_register-some (entry ∷ entries) start address size {index} {offset} {r} h =
      elim (Option-cases (claims ops entry address size)) [
        | inl passed ↦
            let (k, at, fits, after) =
              find_register-some entries (start + 1) address size {index = index} {offset = offset}
                {r = r} (ground arith) in
            (suc k, omega arith, fits, λ r' same. ground (arith, after r' same))
        | inr (r₀, found) ↦
            let (there, based, low, high) = claims-some entry address size found in
            let registers : r₀ ≡ r = ground arith in
            let place : address - entry.base_address ≡ offset = ground arith in
            let first : index ≡ start + 0 = ground arith in
            let room : ops.size r₀ ≡ ops.size r = ap (λ x. ops.size x) registers in
            (
              0,
              first,
              omega arith,
              λ r' same.
                  let again = claims-with_register entry address size r' found (same ∙ sym room) in
                  ground arith,
            )
      ]

-- Where a sound register claims the address of a request of at least one byte, a write of any value
-- returns and puts nothing on the fifos, and a read of the same address and size is then completed
-- with what the register keeps of the value over what it had.
pub process_mmio_packet-write_read :
    {R : Type 0} (ops : RegisterOps R) (kept : R → ℕ → ℕ → ℕ → ℕ → ℕ) (IsSound : R → Type 0)
    (big : Bool) (m : MmioManager R) (packet : MemRequest) (value index offset : ℕ) (r : R)
    → IsMasked ops kept IsSound
    → IsSound r
    → 0 < packet.size
    → get_register_and_offset ops m packet.address packet.size ≡ some (index, r, offset)
    → (old : ℕ) × (m' : MmioManager R) × (ops.read_bytes r offset (offset + packet.size - 1)
        ≡ ok old)
      × (process_mmio_packet ops big m (record packet { type = mem_write value }) ≡ ok (m', []))
      × (process_mmio_packet ops big m' (record packet { type = mem_read })
          ≡ ok (
            m',
            completion
                  (to_be16 big packet.req_id)
                  packet.tag
                  (kept r offset (offset + packet.size - 1) old value)
                  packet.size
                  packet.ld_id
                ∷ [],
          ))
unfolding process_mmio_packet get_register_and_offset send_completion
process_mmio_packet-write_read ops kept IsSound big m packet value index offset r masked sound
      positive found =
    let end = offset + packet.size - 1 in
    let (k, at, room, after) =
      find_register-some ops m.bar_entries 0 packet.address packet.size {index = index}
        {offset = offset} {r = r} found in
    let (old, r', had, done, reads, fits, same) =
      masked r offset end value sound (omega arith) (omega arith) in
    let stored = kept r offset end old value in
    let bits : (end + 1 - offset) * 8 ≡ packet.size * 8 = omega arith in
    let small : leb (2 ^ (packet.size * 8)) stored ≡ false =
      let few = subst (λ t. stored < 2 ^ t) bits fits in ground arith in
    let again = after r' same in
    let place : k ≡ index = omega arith in
    let m₁ = put_register ops m index r' in
    let found' : find_register ops m₁.bar_entries 0 packet.address packet.size
        ≡ some (index, r', offset) =
      subst
        (λ i.
          find_register ops (modify m.bar_entries i (with_register r')) 0 packet.address packet.size
          ≡ some (index, r', offset))
        place again in
    (old, m₁, had, ground arith, ground arith)

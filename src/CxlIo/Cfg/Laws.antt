-- ===== src/CxlIo/Cfg/Laws.antt =====
-- opencxl/cxl/transport/transaction.py: what is read from a configuration request.
use Prim.Native.Nat.{bit_or}
use opencxl_core.Prelude.{
  ℕ, zero, suc, ◌+◌, ◌*◌, ◌/◌, ◌%◌, ◌^◌, ◌<◌, ◌≤◌, ◌≡◌, refl, ap, ap₂, ◌∙◌, arith, Bool, true,
  false, Option, some, ok, Result-cases, inl, inr,
}
use opencxl_core.Prelude.Bits.{shl, shr, bit_and-low_mask, bit_or-shl}
use opencxl_core.Number.{to_be16, bswap16}
use opencxl_core.Number.Laws.{bswap16-bswap16, bswap16_lem}
use opencxl_core.Pci.Bdf.{extract_bus_from_bdf, extract_device_from_bdf, extract_function_from_bdf}
use opencxl_core.CxlIo.{field, choose_req_id, choose_tag}
use opencxl_core.CxlIo.Cfg.{
  CxlIoCfgReqHeader, CxlIoCfgWrPacket, byte_enables, fill, get_cfg_addr_read_info, lowest_bit,
  count_bits, get_cfg_addr_write_info, get_bus, get_device, get_function, create_cfg_wr, get_value,
}

-- The byte enables of an access, read back, and its value in the enabled bytes.
abbrev IsRead : ℕ → ℕ → ℕ → Type 0
IsRead size offset v =
    (lowest_bit 4 (byte_enables size offset 0 % 2 ^ 4) 1 0 ≡ some offset)
    × (count_bits 4 (byte_enables size offset 0 % 2 ^ 4) 0 ≡ size)
    × (shl v (8 * offset) < 2 ^ 32)
    × (shr (shl v (8 * offset)) (offset * 8) % 2 ^ (size * 8) ≡ v)

byte_enables-IsRead :
    (size offset v : ℕ) → 1 ≤ size → offset + size ≤ 4 → v < 2 ^ (8 * size) → IsRead size offset v
unfolding byte_enables lowest_bit count_bits
byte_enables-IsRead (suc zero) zero v h b k = (refl, refl, omega arith, omega arith)
byte_enables-IsRead (suc zero) (suc zero) v h b k = (refl, refl, omega arith, omega arith)
byte_enables-IsRead (suc zero) (suc (suc zero)) v h b k = (refl, refl, omega arith, omega arith)
byte_enables-IsRead (suc zero) (suc (suc (suc zero))) v h b k =
    (refl, refl, omega arith, omega arith)
byte_enables-IsRead (suc (suc zero)) zero v h b k = (refl, refl, omega arith, omega arith)
byte_enables-IsRead (suc (suc zero)) (suc zero) v h b k = (refl, refl, omega arith, omega arith)
byte_enables-IsRead (suc (suc zero)) (suc (suc zero)) v h b k =
    (refl, refl, omega arith, omega arith)
byte_enables-IsRead (suc (suc (suc zero))) zero v h b k = (refl, refl, omega arith, omega arith)
byte_enables-IsRead (suc (suc (suc zero))) (suc zero) v h b k =
    (refl, refl, omega arith, omega arith)
byte_enables-IsRead (suc (suc (suc (suc zero)))) zero v h b k =
    (refl, refl, omega arith, omega arith)
byte_enables-IsRead zero offset v h b k = absurd (omega arith)
byte_enables-IsRead (suc size) (suc (suc (suc (suc offset)))) v h b k = absurd (omega arith)
byte_enables-IsRead (suc (suc (suc (suc (suc size))))) offset v h b k = absurd (omega arith)
byte_enables-IsRead (suc (suc (suc (suc size)))) (suc offset) v h b k = absurd (omega arith)
byte_enables-IsRead (suc (suc (suc size))) (suc (suc offset)) v h b k = absurd (omega arith)
byte_enables-IsRead (suc (suc size)) (suc (suc (suc offset))) v h b k = absurd (omega arith)

-- The header that `fill` makes of an access within one double word of the configuration space.
abbrev filled : Bool → ℕ → ℕ → ℕ → ℕ → ℕ → CxlIoCfgReqHeader
filled big id cfg_addr size req_id tag = record {
  req_id = req_id % 2 ^ 16;
  tag = tag % 2 ^ 8;
  first_dw_be = byte_enables size (cfg_addr % 4) 0 % 2 ^ 4;
  last_dw_be = 0;
  dest_id = to_be16 big id % 2 ^ 16;
  ext_reg_num = cfg_addr / 2 ^ 8 % 2 ^ 4;
  reg_num = cfg_addr / 2 ^ 2 % 2 ^ 6;
}

fill_lem :
    (big : Bool) (id cfg_addr size req_id tag : ℕ)
    → cfg_addr < 4096
    → cfg_addr % 4 + size ≤ 4
    → fill big id cfg_addr size req_id tag ≡ ok (filled big id cfg_addr size req_id tag)
unfolding fill field
fill_lem big id cfg_addr size req_id tag a s =
    rw
      (
        bit_and-low_mask 2 cfg_addr,
        bit_and-low_mask 4 (shr cfg_addr 8),
        bit_and-low_mask 6 (shr cfg_addr 2),
      )
      (ground arith)

register_number :
    (big : Bool) (id cfg_addr size req_id tag : ℕ)
    → cfg_addr < 4096
    → bit_or
        (shl (filled big id cfg_addr size req_id tag).ext_reg_num 6)
        (filled big id cfg_addr size req_id tag).reg_num
      ≡ cfg_addr / 4
register_number big id cfg_addr size req_id tag a =
    bit_or-shl 6 (cfg_addr / 2 ^ 8 % 2 ^ 4) (cfg_addr / 2 ^ 2 % 2 ^ 6) (omega arith) ∙ omega arith

write_info :
    (big : Bool) (id cfg_addr size value req_id tag : ℕ)
    → cfg_addr < 4096
    → cfg_addr % 4 + size ≤ 4
    → 1 ≤ size
    → value < 2 ^ (8 * size)
    → get_cfg_addr_write_info (filled big id cfg_addr size req_id tag) ≡ some (cfg_addr, size)
unfolding get_cfg_addr_write_info
write_info big id cfg_addr size value req_id tag a s l b =
    let (lowest, count, fits, back) = byte_enables-IsRead size (cfg_addr % 4) value l s b in
    rw (get_cfg_addr_write_info, lowest, count, register_number big id cfg_addr size req_id tag a)
      (ap (λ t. some (t, size)) (omega arith))

get_value-eq :
    (p : CxlIoCfgWrPacket) (cfg_addr size w : ℕ)
    → get_cfg_addr_write_info p.cfg_req_header ≡ some (cfg_addr, size)
    → p.cfg_value ≡ w
    → get_value p ≡ some (shr w (cfg_addr % 4 * 8) % 2 ^ (size * 8))
unfolding get_value
get_value-eq p cfg_addr size w info stored =
    let offset : cfg_addr % 4 % 4 ≡ cfg_addr % 4 = omega arith in
    rw (get_value, info)
      (ap some (
        bit_and-low_mask (size * 8) (shr p.cfg_value (cfg_addr % 4 % 4 * 8))
        ∙ ap₂ (λ x k. shr x (k * 8) % 2 ^ (size * 8)) stored offset))

-- A configuration write is read back: for an access of 1 to 4 bytes within one double word of the 4096
-- bytes, with a value of that many bytes, the packet is built, and both the address and size and the
-- value that are read from it are those of the access, for every byte order of the host and
-- whichever bytes are enabled.
pub get_value-create_cfg_wr :
    (big : Bool) (id cfg_addr size value : ℕ) (is_type0 : Bool) (req_id tag : Option ℕ)
    (ld_id counter : ℕ)
    → cfg_addr < 4096
    → cfg_addr % 4 + size ≤ 4
    → 1 ≤ size
    → value < 2 ^ (8 * size)
    → (p : CxlIoCfgWrPacket) × (create_cfg_wr big id cfg_addr size value is_type0 req_id tag ld_id
          counter
        ≡ ok (p, (choose_tag tag counter).1))
      × (get_cfg_addr_write_info p.cfg_req_header ≡ some (cfg_addr, size))
      × (get_value p ≡ some value)
unfolding create_cfg_wr get_value
get_value-create_cfg_wr big id cfg_addr size value is_type0 req_id tag ld_id counter a s l b =
    let t = choose_tag tag counter in
    let r = choose_req_id big req_id in
    let header = filled big id cfg_addr size r t.0 in
    let built : fill big id cfg_addr size r t.0 ≡ ok header =
      fill_lem big id cfg_addr size r t.0 a s in
    let info : get_cfg_addr_write_info header ≡ some (cfg_addr, size) =
      write_info big id cfg_addr size value r t.0 a s l b in
    let (lowest, count, fits, back) = byte_enables-IsRead size (cfg_addr % 4) value l s b in
    elim (Result-cases
      (create_cfg_wr big id cfg_addr size value is_type0 req_id tag ld_id counter)) [
        | inr (x, e) ↦ absurd (ground arith)
        | inl ((p, c), e) ↦
            let same : p.cfg_req_header ≡ header = ground arith in
            let stored : p.cfg_value ≡ shl value (8 * (cfg_addr % 4)) = ground arith in
            let counted : c ≡ t.1 = ground arith in
            (
              p,
              e ∙ ap (λ k. ok (p, k)) counted,
              rw same info,
              get_value-eq p cfg_addr size _ (rw same info) stored ∙ ap some back,
            )
      ]

dest : (big : Bool) (id : ℕ) → id < 2 ^ 16 → to_be16 big (to_be16 big id % 2 ^ 16) ≡ id
unfolding to_be16
dest true id i = omega arith
dest false id i = ap bswap16 (omega (arith, bswap16_lem id)) ∙ bswap16-bswap16 id i

-- The parts of the destination of a configuration request are the bus, the device and the function of
-- the number of 16 bits that it was made for, and the register read is the double word of the access,
-- for every access within one double word of the 4096 bytes and every byte order of the host.
pub get_cfg_addr_read_info-fill :
    (big : Bool) (id cfg_addr size req_id tag : ℕ)
    → id < 2 ^ 16
    → cfg_addr < 4096
    → cfg_addr % 4 + size ≤ 4
    → (h : CxlIoCfgReqHeader) × (fill big id cfg_addr size req_id tag ≡ ok h)
      × (get_cfg_addr_read_info h ≡ (cfg_addr / 4 * 4, 4))
      × (get_bus big h ≡ extract_bus_from_bdf id)
      × (get_device big h ≡ extract_device_from_bdf id)
      × (get_function big h ≡ extract_function_from_bdf id)
unfolding get_cfg_addr_read_info get_bus get_device get_function
get_cfg_addr_read_info-fill big id cfg_addr size req_id tag i a s = (
  filled big id cfg_addr size req_id tag,
  fill_lem big id cfg_addr size req_id tag a s,
  ap (λ t. (shl t 2, 4)) (register_number big id cfg_addr size req_id tag a),
  ap extract_bus_from_bdf (dest big id i),
  ap extract_device_from_bdf (dest big id i),
  ap extract_function_from_bdf (dest big id i),
)

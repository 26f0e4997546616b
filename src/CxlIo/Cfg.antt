-- ===== src/CxlIo/Cfg.antt =====
-- opencxl/cxl/transport/transaction.py: the configuration requests of CXL.io, `CxlIoCfgReqPacket`
-- with its reads and writes.
pub mod Laws
use Prim.Native.Nat.{bit_and, bit_or}
use opencxl_core.Prelude.{
  ℕ, zero, suc, ◌+◌, ◌-◌, ◌*◌, ◌/◌, ◌%◌, ◌^◌, Bool, Option, none, some, if◌then◌else◌, ltb, ◌==◌,
  Result, ok, err, ◌>>=◌, ◌>>◌, guard, exception, overflow_error, leb,
}
use opencxl_core.Prelude.Bits.{shl, shr, low_mask}
use opencxl_core.Number.{to_be16}
use opencxl_core.Pci.Bdf.{extract_bus_from_bdf, extract_device_from_bdf, extract_function_from_bdf}
use opencxl_core.CxlIo.{
  CxlIoBasePacket, base_packet, fmt_cfg_rd0, fmt_cfg_rd1, fmt_cfg_wr0, fmt_cfg_wr1, field,
  build_transaction_id, choose_req_id, choose_tag,
}

pub record CxlIoCfgReqHeader : Type 0 where
  pub req_id : ℕ
  pub tag : ℕ
  pub first_dw_be : ℕ
  pub last_dw_be : ℕ
  pub dest_id : ℕ
  pub ext_reg_num : ℕ
  pub reg_num : ℕ

-- The loop of `fill`: one bit for each of `size` bytes, from `offset` on.
unfoldable pub byte_enables : ℕ → ℕ → ℕ → ℕ
byte_enables zero offset be = be
byte_enables (suc size) offset be = byte_enables size (offset + 1) (bit_or be (shl 1 offset))

unfoldable pub fill : Bool → ℕ → ℕ → ℕ → ℕ → ℕ → Result CxlIoCfgReqHeader
unfolding field byte_enables to_be16
fill big id cfg_addr size req_id tag =
    guard (leb cfg_addr 0xfff) exception
    >> (guard (leb (bit_and cfg_addr 0x03 + size) 4) exception
        >> ok (record {
          req_id = field 16 req_id;
          tag = field 8 tag;
          first_dw_be = field 4 (byte_enables size (bit_and cfg_addr 0x03) 0);
          last_dw_be = 0;
          dest_id = field 16 (to_be16 big id);
          ext_reg_num = field 4 (bit_and (shr cfg_addr 8) 0x0f);
          reg_num = field 6 (bit_and (shr cfg_addr 2) 0x3f);
        }))

abbrev full_reg_num : CxlIoCfgReqHeader → ℕ
full_reg_num h = bit_or (shl h.ext_reg_num 6) h.reg_num

unfoldable pub get_cfg_addr_read_info : CxlIoCfgReqHeader → ℕ × ℕ
get_cfg_addr_read_info h = (shl (full_reg_num h) 2, 4)

-- The first loop of `get_cfg_addr_write_info`, for the first `turns` bits: the position of the lowest
-- bit that is set. A field without such a bit keeps the loop going for ever.
unfoldable pub lowest_bit : ℕ → ℕ → ℕ → ℕ → Option ℕ
lowest_bit zero be b pos = none
lowest_bit (suc turns) be b pos =
    let later = lowest_bit turns be (shl b 1) (pos + 1) in
    if bit_and be b == 0 then later else some pos

-- The second loop, which clears the lowest bit in each turn: at most `turns` bits are counted.
unfoldable pub count_bits : ℕ → ℕ → ℕ → ℕ
count_bits zero be size = size
count_bits (suc turns) be size =
    let later = count_bits turns (bit_and be (be - 1)) (size + 1) in if be == 0 then size else later

-- `first_dw_be` is four bits wide, so four turns are enough for each loop; `none` is a call that
-- never returns.
unfoldable pub get_cfg_addr_write_info : CxlIoCfgReqHeader → Option (ℕ × ℕ)
unfolding lowest_bit count_bits
get_cfg_addr_write_info h = elim (lowest_bit 4 h.first_dw_be 1 0) [
  | none ↦ none
  | some pos ↦ some (shl (full_reg_num h) 2 + pos, count_bits 4 h.first_dw_be 0)
]

unfoldable pub get_bus : Bool → CxlIoCfgReqHeader → ℕ
unfolding to_be16 extract_bus_from_bdf
get_bus big h = extract_bus_from_bdf (to_be16 big h.dest_id)

unfoldable pub get_device : Bool → CxlIoCfgReqHeader → ℕ
unfolding to_be16 extract_device_from_bdf
get_device big h = extract_device_from_bdf (to_be16 big h.dest_id)

unfoldable pub get_function : Bool → CxlIoCfgReqHeader → ℕ
unfolding to_be16 extract_function_from_bdf
get_function big h = extract_function_from_bdf (to_be16 big h.dest_id)

unfoldable pub get_transaction_id : CxlIoCfgReqHeader → ℕ
unfolding build_transaction_id
get_transaction_id h = build_transaction_id h.req_id h.tag

pub record CxlIoCfgRdPacket : Type 0 where
  pub base : CxlIoBasePacket
  pub cfg_req_header : CxlIoCfgReqHeader

pub record CxlIoCfgWrPacket : Type 0 where
  pub base : CxlIoBasePacket
  pub cfg_req_header : CxlIoCfgReqHeader
  pub cfg_value : ℕ

-- The headers take 18 bytes; the length is one double word. The results are with the counter of tags.
unfoldable pub create_cfg_rd :
    Bool → ℕ → ℕ → ℕ → Bool → Option ℕ → Option ℕ → ℕ → ℕ → Result (CxlIoCfgRdPacket × ℕ)
unfolding fill choose_req_id choose_tag
create_cfg_rd big id cfg_addr size is_type0 req_id tag ld_id counter = do
  let t = choose_tag tag counter
  header ← fill big id cfg_addr size (choose_req_id big req_id) t.0
  let fmt_type = if is_type0 then fmt_cfg_rd0 else fmt_cfg_rd1
  ok (record { base = base_packet 18 ld_id fmt_type 0 1; cfg_req_header = header }, t.1)

-- The value stands in the bytes that are enabled; the field has four bytes.
unfoldable pub create_cfg_wr :
    Bool → ℕ → ℕ → ℕ → ℕ → Bool → Option ℕ → Option ℕ → ℕ → ℕ → Result (CxlIoCfgWrPacket × ℕ)
unfolding fill choose_req_id choose_tag
create_cfg_wr big id cfg_addr size value is_type0 req_id tag ld_id counter = do
  let t = choose_tag tag counter
  let shifted = shl value (8 * (cfg_addr % 4))
  header ← fill big id cfg_addr size (choose_req_id big req_id) t.0
  let fmt_type = if is_type0 then fmt_cfg_wr0 else fmt_cfg_wr1
  let packet : CxlIoCfgWrPacket = record {
    base = base_packet 22 ld_id fmt_type 0 1;
    cfg_req_header = header;
    cfg_value = shifted;
  }
  guard (ltb shifted (2 ^ 32)) overflow_error >> ok (packet, t.1)

unfoldable pub get_value : CxlIoCfgWrPacket → Option ℕ
unfolding get_cfg_addr_write_info
get_value p = elim (get_cfg_addr_write_info p.cfg_req_header) [
  | none ↦ none
  | some (cfg_addr, size) ↦
      some (bit_and (shr p.cfg_value (cfg_addr % 4 % 4 * 8)) (low_mask (size * 8)))
]

-- ===== src/CxlIo/Mreq.antt =====
-- opencxl/cxl/transport/transaction.py: the memory requests of CXL.io, `CxlIoMemReqPacket` with its
-- reads and writes.
pub mod Laws
use mathlib.Core.List.{reverse}
use Prim.Native.Nat.{bit_and, bit_or}
use opencxl_core.Prelude.{
  ℕ, ◌+◌, ◌-◌, ◌*◌, ◌/◌, ◌%◌, ◌^◌, Bool, Option, if◌then◌else◌, ltb, Result, ok, err, ◌>>=◌, ◌>>◌,
  guard, overflow_error,
}
use opencxl_core.Prelude.Bits.{shl, shr, low_mask}
use opencxl_core.Bytes.{from_bytes, to_bytes}
use opencxl_core.CxlIo.{
  CxlIoBasePacket, base_packet, fmt_mrd_64b, fmt_mwr_64b, field, build_transaction_id,
  choose_req_id, choose_tag,
}

pub record CxlIoMreqHeader : Type 0 where
  pub req_id : ℕ
  pub tag : ℕ
  pub first_dw_be : ℕ
  pub last_dw_be : ℕ
  pub addr_upper : ℕ
  pub addr_lower : ℕ

-- `int.from_bytes(value.to_bytes(7, "big"), "little")`, and the other way round.
unfoldable pub swap_bytes : ℕ → ℕ
unfolding from_bytes to_bytes
swap_bytes value = from_bytes (reverse (to_bytes 7 value))

-- The length of a request in double words, from the double word in which it starts.
unfoldable pub length_dword : ℕ → ℕ → ℕ
length_dword addr length = (addr % 4 + length + 3) / 4

unfoldable pub first_be : ℕ → ℕ → ℕ
first_be addr length = bit_and (shl (low_mask length) (addr % 4)) 0xf

unfoldable pub last_be : ℕ → ℕ → ℕ
unfolding length_dword
last_be addr length =
    if ltb 1 (length_dword addr length)
    then bit_and (shr (shl (low_mask length) (addr % 4)) ((length_dword addr length - 1) * 4)) 0xf
    else 0

-- `fill`: the header of the request; `to_bytes` raises on an address of more than 64 bits.
unfoldable pub fill : ℕ → ℕ → ℕ → ℕ → Result CxlIoMreqHeader
unfolding swap_bytes first_be last_be field
fill addr length req_id tag =
    guard (ltb (shr addr 8) (2 ^ 56)) overflow_error
    >> ok (record {
      req_id = field 16 req_id;
      tag = field 8 tag;
      first_dw_be = field 4 (first_be addr length);
      last_dw_be = field 4 (last_be addr length);
      addr_upper = field 56 (swap_bytes (shr addr 8));
      addr_lower = field 6 (shr (bit_and addr 0xff) 2);
    })

-- The other part of `fill`: the fields of the CXL.io header.
unfoldable pub fill_length : ℕ → ℕ → ℕ → ℕ → ℕ → CxlIoBasePacket
unfolding length_dword field
fill_length addr length payload_length ld_id fmt_type =
    base_packet payload_length ld_id fmt_type (bit_and (length_dword addr length) 0x300)
      (bit_and (length_dword addr length) 0xff)

unfoldable pub get_address : CxlIoMreqHeader → ℕ
unfolding swap_bytes
get_address h = bit_or (bit_or 0 (shl (swap_bytes h.addr_upper) 8)) (shl h.addr_lower 2)

unfoldable pub get_data_size : CxlIoBasePacket → ℕ
get_data_size p = bit_or (shl p.length_upper 8) (bit_and p.length_lower 0xff) * 4

unfoldable pub get_transaction_id : CxlIoMreqHeader → ℕ
unfolding build_transaction_id
get_transaction_id h = build_transaction_id h.req_id h.tag

pub record CxlIoMemRdPacket : Type 0 where
  pub base : CxlIoBasePacket
  pub mreq_header : CxlIoMreqHeader

pub record CxlIoMemWrPacket : Type 0 where
  pub base : CxlIoBasePacket
  pub mreq_header : CxlIoMreqHeader
  pub data_value : ℕ

-- The headers take 22 bytes: 2 of the system header, 4 of the prefix, 4 of the CXL.io header and 12.
-- The result is with the counter of tags.
unfoldable pub create_mem_rd :
    Bool → ℕ → ℕ → Option ℕ → Option ℕ → ℕ → ℕ → Result (CxlIoMemRdPacket × ℕ)
unfolding fill fill_length choose_req_id choose_tag
create_mem_rd big addr length req_id tag ld_id counter = do
  let t = choose_tag tag counter
  header ← fill addr length (choose_req_id big req_id) t.0
  ok (record { base = fill_length addr length 22 ld_id fmt_mrd_64b; mreq_header = header }, t.1)

-- The data field has `length` bytes, and `to_bytes` raises on data that is longer.
unfoldable pub create_mem_wr :
    Bool → ℕ → ℕ → ℕ → Option ℕ → Option ℕ → ℕ → ℕ → Result (CxlIoMemWrPacket × ℕ)
unfolding fill fill_length choose_req_id choose_tag
create_mem_wr big addr length value req_id tag ld_id counter = do
  let t = choose_tag tag counter
  header ← fill addr length (choose_req_id big req_id) t.0
  let packet : CxlIoMemWrPacket = record {
    base = fill_length addr length (22 + length) ld_id fmt_mwr_64b;
    mreq_header = header;
    data_value = value;
  }
  guard (ltb value (256 ^ length)) overflow_error >> ok (packet, t.1)

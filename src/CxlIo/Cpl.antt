-- ===== src/CxlIo/Cpl.antt =====
-- opencxl/cxl/transport/transaction.py: the completions of CXL.io, without and with data, and the tests
-- of their status.
use opencxl_core.Prelude.{
  ℕ, ◌+◌, ◌/◌, ◌^◌, Bool, true, false, if◌then◌else◌, ltb, ◌==◌, Result, ok, ◌>>=◌, ◌>>◌, guard,
  overflow_error,
}
use opencxl_core.Number.{to_be16, extract_upper, extract_lower}
use opencxl_core.CxlIo.{
  CxlIoBasePacket, base_packet, payload_cxl_io, fmt_cpl, fmt_cpl_d, field, build_transaction_id,
  is_cpl, is_cpld,
}

-- `CXL_IO_CPL_STATUS`, by its numbers.
abbrev pub cpl_status_sc : ℕ
cpl_status_sc = 0

abbrev pub cpl_status_ur : ℕ
cpl_status_ur = 1

pub record CxlIoCompletionHeader : Type 0 where
  pub cpl_id : ℕ
  pub byte_count_upper : ℕ
  pub status : ℕ
  pub byte_count_lower : ℕ
  pub req_id : ℕ
  pub tag : ℕ

pub record CxlIoCompletionPacket : Type 0 where
  pub base : CxlIoBasePacket
  pub cpl_header : CxlIoCompletionHeader

pub record CxlIoCompletionWithDataPacket : Type 0 where
  pub base : CxlIoBasePacket
  pub cpl_header : CxlIoCompletionHeader
  pub data_value : ℕ

unfoldable pub get_transaction_id : CxlIoCompletionHeader → ℕ
unfolding build_transaction_id
get_transaction_id h = build_transaction_id h.req_id h.tag

-- `random_id` is the number that `get_randbits(16)` gives, and `big` the byte order of the host. The
-- headers take 18 bytes.
unfoldable pub create_cpl : Bool → ℕ → ℕ → ℕ → ℕ → ℕ → CxlIoCompletionPacket
unfolding to_be16 field
create_cpl big random_id req_id tag status ld_id = record {
  base = base_packet 18 ld_id fmt_cpl 0 0;
  cpl_header = record {
    cpl_id = field 16 (to_be16 big random_id);
    byte_count_upper = 0;
    status = field 3 status;
    byte_count_lower = 4;
    req_id = field 16 (to_be16 big req_id);
    tag = field 8 tag;
  };
}

unfoldable pub create_cpld : Bool → ℕ → ℕ → ℕ → ℕ → ℕ → ℕ → ℕ → Result CxlIoCompletionWithDataPacket
unfolding to_be16 field extract_upper extract_lower
create_cpld big random_id req_id tag value status pload_len ld_id = do
  length_upper ← extract_upper (pload_len / 4) 2 10
  length_lower ← extract_lower (pload_len / 4) 8 10
  byte_count_upper ← extract_upper pload_len 4 12
  byte_count_lower ← extract_lower pload_len 8 12
  guard (ltb value (256 ^ pload_len)) overflow_error
      >> ok (record {
        base = base_packet (18 + pload_len) ld_id fmt_cpl_d length_upper length_lower;
        cpl_header = record {
          cpl_id = field 16 (to_be16 big random_id);
          byte_count_upper = field 4 byte_count_upper;
          status = field 3 status;
          byte_count_lower = field 8 byte_count_lower;
          req_id = field 16 (to_be16 big req_id);
          tag = field 8 tag;
        };
        data_value = value;
      })

-- The two tests of a completion; a completion with data is always a success to them.
unfoldable pub is_cxl_io_completion_status_sc : CxlIoCompletionPacket → Bool
unfolding is_cpl is_cpld
is_cxl_io_completion_status_sc p =
    if p.base.payload_type == payload_cxl_io
    then if is_cpld p.base
      then true
      else if is_cpl p.base
      then p.cpl_header.status == cpl_status_sc
      else false
    else false

unfoldable pub is_cxl_io_completion_status_ur : CxlIoCompletionPacket → Bool
unfolding is_cpl
is_cxl_io_completion_status_ur p =
    if p.base.payload_type == payload_cxl_io
    then if is_cpl p.base then p.cpl_header.status == cpl_status_ur else false
    else false

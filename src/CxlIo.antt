-- ===== src/CxlIo.antt =====
-- opencxl/cxl/transport/transaction.py and common.py: the headers that every CXL.io packet has, what a
-- packet is by the number in its `fmt_type`, and its tags. A header is the values of its fields; a
-- value written to a field of `w` bits is cut to `w` bits.
pub mod Mreq
pub mod Cfg
pub mod Cpl
use Prim.Native.Nat.{bit_or}
use opencxl_core.Prelude.{
  ℕ, ◌+◌, ◌%◌, ◌^◌, Bool, true, false, ◌&&◌, ◌||◌, not, Option, none, some, if◌then◌else◌, ◌==◌,
}
use opencxl_core.Prelude.Bits.{shl}
use opencxl_core.Number.{to_be16}

-- What is read back from a field of `w` bits.
unfoldable pub field : ℕ → ℕ → ℕ
field w value = value % 2 ^ w

-- The payload types of the system header.
abbrev pub payload_cxl_io : ℕ
payload_cxl_io = 1

abbrev pub payload_cxl_mem : ℕ
payload_cxl_mem = 2

abbrev pub payload_cxl_cache : ℕ
payload_cxl_cache = 3

abbrev pub payload_cci_mctp : ℕ
payload_cci_mctp = 4

abbrev pub payload_sideband : ℕ
payload_sideband = 15

-- The members of `CXL_IO_FMT_TYPE` that the code tests or sets.
abbrev pub fmt_mrd_32b : ℕ
fmt_mrd_32b = 0b00000000

abbrev pub fmt_mrd_64b : ℕ
fmt_mrd_64b = 0b00100000

abbrev pub fmt_mwr_32b : ℕ
fmt_mwr_32b = 0b01000000

abbrev pub fmt_mwr_64b : ℕ
fmt_mwr_64b = 0b01100000

abbrev pub fmt_cfg_rd0 : ℕ
fmt_cfg_rd0 = 0b00000100

abbrev pub fmt_cfg_wr0 : ℕ
fmt_cfg_wr0 = 0b01000100

abbrev pub fmt_cfg_rd1 : ℕ
fmt_cfg_rd1 = 0b00000101

abbrev pub fmt_cfg_wr1 : ℕ
fmt_cfg_wr1 = 0b01000101

abbrev pub fmt_cpl : ℕ
fmt_cpl = 0b00001010

abbrev pub fmt_cpl_d : ℕ
fmt_cpl_d = 0b01001010

-- The system header, the TLP prefix and the CXL.io header; the fields that no code here sets are 0.
pub record CxlIoBasePacket : Type 0 where
  pub payload_type : ℕ
  pub payload_length : ℕ
  pub ld_id : ℕ
  pub fmt_type : ℕ
  pub length_upper : ℕ
  pub length_lower : ℕ

abbrev pub base_packet : ℕ → ℕ → ℕ → ℕ → ℕ → CxlIoBasePacket
base_packet payload_length ld_id fmt_type length_upper length_lower = record {
  payload_type = payload_cxl_io;
  payload_length = field 12 payload_length;
  ld_id = field 16 ld_id;
  fmt_type = fmt_type;
  length_upper = field 2 length_upper;
  length_lower = field 8 length_lower;
}

unfoldable pub is_cfg_type0 : CxlIoBasePacket → Bool
is_cfg_type0 p = p.fmt_type == fmt_cfg_rd0 || p.fmt_type == fmt_cfg_wr0

unfoldable pub is_cfg_type1 : CxlIoBasePacket → Bool
is_cfg_type1 p = p.fmt_type == fmt_cfg_rd1 || p.fmt_type == fmt_cfg_wr1

unfoldable pub is_cfg_read : CxlIoBasePacket → Bool
is_cfg_read p = p.fmt_type == fmt_cfg_rd0 || p.fmt_type == fmt_cfg_rd1

unfoldable pub is_cfg_write : CxlIoBasePacket → Bool
is_cfg_write p = p.fmt_type == fmt_cfg_wr0 || p.fmt_type == fmt_cfg_wr1

unfoldable pub is_cpl : CxlIoBasePacket → Bool
is_cpl p = p.fmt_type == fmt_cpl

unfoldable pub is_cpld : CxlIoBasePacket → Bool
is_cpld p = p.fmt_type == fmt_cpl_d

unfoldable pub is_cfg : CxlIoBasePacket → Bool
unfolding is_cfg_type0 is_cfg_type1
is_cfg p = ((is_cfg_type0 p || is_cfg_type1 p) || p.fmt_type == fmt_cpl) || p.fmt_type == fmt_cpl_d

unfoldable pub is_mem_read : CxlIoBasePacket → Bool
is_mem_read p = p.fmt_type == fmt_mrd_32b || p.fmt_type == fmt_mrd_64b

unfoldable pub is_mem_write : CxlIoBasePacket → Bool
is_mem_write p = p.fmt_type == fmt_mwr_32b || p.fmt_type == fmt_mwr_64b

unfoldable pub is_mmio : CxlIoBasePacket → Bool
is_mmio p =
    ((p.fmt_type == fmt_mrd_32b || p.fmt_type == fmt_mrd_64b) || p.fmt_type == fmt_mwr_32b)
    || p.fmt_type == fmt_mwr_64b

-- `CxlIoBasePacket.tag`, the class's counter: the tag used, and the counter after it.
unfoldable pub get_tag : ℕ → ℕ × ℕ
get_tag counter = (counter, (counter + 1) % 256)

unfoldable pub build_transaction_id : ℕ → ℕ → ℕ
build_transaction_id req_id tag = bit_or (shl req_id 8) tag

-- What the `create` methods do with a requester and a tag that may be `None`: the counter is used, and
-- goes on, only without a tag. `big` is the byte order of the host.
unfoldable pub choose_req_id : Bool → Option ℕ → ℕ
unfolding to_be16
choose_req_id big none = 0
choose_req_id big (some req_id) = to_be16 big req_id

unfoldable pub choose_tag : Option ℕ → ℕ → ℕ × ℕ
unfolding get_tag
choose_tag none counter = ((get_tag counter).0 % 256, (get_tag counter).1)
choose_tag (some tag) counter = (tag % 256, counter)

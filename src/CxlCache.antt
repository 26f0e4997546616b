-- ===== src/CxlCache.antt =====
-- opencxl/cxl/transport/transaction.py: the CXL.cache packets. A packet is the fields of its header that
-- the code reads or sets to something of its own; the opcodes are the enumerations.
use opencxl_core.Prelude.{
  ℕ, ◌%◌, ◌^◌, ltb, ◌==◌, Result, ok, ◌>>◌, guard, exception, overflow_error,
}
use opencxl_core.CxlMem.{addr_field, get_address}

pub data D2hReqOpcode : Type 0 where
  cache_rd_curr cache_rd_own cache_rd_shared cache_rd_any cache_rd_own_no_data : D2hReqOpcode
  cache_i_to_m_wr cache_wr_cur cache_cl_flush cache_clean_evict cache_dirty_evict : D2hReqOpcode
  cache_clean_evict_no_data cache_weakly_ordered_wr_inv : D2hReqOpcode
  cache_weakly_ordered_wr_inv_f cache_wr_inv cache_cache_flushed : D2hReqOpcode

pub data D2hRspOpcode : Type 0 where
  rsp_i_hit_i rsp_v_hit_v rsp_i_hit_se rsp_s_hit_se rsp_s_fwd_m rsp_i_fwd_m rsp_v_fwd_v :
      D2hRspOpcode

-- The numbers of these opcodes, which the coherency bridge compares.
unfoldable pub d2h_rsp_number : D2hRspOpcode → ℕ
d2h_rsp_number rsp_i_hit_i = 4
d2h_rsp_number rsp_v_hit_v = 6
d2h_rsp_number rsp_i_hit_se = 5
d2h_rsp_number rsp_s_hit_se = 1
d2h_rsp_number rsp_s_fwd_m = 7
d2h_rsp_number rsp_i_fwd_m = 15
d2h_rsp_number rsp_v_fwd_v = 22

pub data H2dReqOpcode : Type 0 where
  h2d_snp_data h2d_snp_inv h2d_snp_cur : H2dReqOpcode

pub data H2dRspOpcode : Type 0 where
  write_pull go go_write_pull ext_cmp go_write_pull_drop h2d_rsp_rsvd fast_go_write_pull :
      H2dRspOpcode
  go_err_write_pull : H2dRspOpcode

-- CXL_CACHE_H2DRSP_CACHE_STATE, as far as the code uses it. The field `rsp_data` has such a number or a
-- UQID.
abbrev pub state_invalid : ℕ
state_invalid = 3

abbrev pub state_shared : ℕ
state_shared = 1

abbrev pub state_exclusive : ℕ
state_exclusive = 2

pub record D2hReqPacket : Type 0 where
  pub cache_opcode : D2hReqOpcode
  pub cqid : ℕ
  pub cache_id : ℕ
  pub addr : ℕ

pub record D2hRspPacket : Type 0 where
  pub cache_opcode : D2hRspOpcode
  pub uqid : ℕ

pub record D2hDataPacket : Type 0 where
  pub uqid : ℕ
  pub value : ℕ

pub record H2dReqPacket : Type 0 where
  pub cache_opcode : H2dReqOpcode
  pub addr : ℕ
  pub cache_id : ℕ

pub record H2dRspPacket : Type 0 where
  pub cache_opcode : H2dRspOpcode
  pub rsp_data : ℕ
  pub cqid : ℕ
  pub cache_id : ℕ

pub record H2dDataPacket : Type 0 where
  pub cqid : ℕ
  pub cache_id : ℕ
  pub value : ℕ

-- What travels in each direction; any other packet is one of another class or protocol.
pub data D2hPacket : Type 0 where
  d2h_req_packet : D2hReqPacket → D2hPacket
  d2h_rsp_packet : D2hRspPacket → D2hPacket
  d2h_data_packet : D2hDataPacket → D2hPacket
  d2h_other_packet : D2hPacket

pub data H2dPacket : Type 0 where
  h2d_req_packet : H2dReqPacket → H2dPacket
  h2d_rsp_packet : H2dRspPacket → H2dPacket
  h2d_data_packet : H2dDataPacket → H2dPacket
  h2d_other_packet : H2dPacket

unfoldable pub d2h_req_address : D2hReqPacket → ℕ
unfolding get_address
d2h_req_address p = get_address p.addr

unfoldable pub h2d_req_address : H2dReqPacket → ℕ
unfolding get_address
h2d_req_address p = get_address p.addr

abbrev pub set_cache_id : ℕ → D2hReqPacket → D2hReqPacket
set_cache_id cache_id p = record p { cache_id = cache_id % 2 ^ 4 }

-- The fields of a header keep the bits that they have room for: 12 for a tag, 4 for a cache's id.
unfoldable pub create_d2h_req : ℕ → ℕ → D2hReqOpcode → ℕ → Result D2hReqPacket
unfolding addr_field
create_d2h_req addr cache_id opcode cqid =
    guard ((addr % 64) == 0) exception
    >> ok (record {
      cache_opcode = opcode;
      cqid = cqid % 2 ^ 12;
      cache_id = cache_id % 2 ^ 4;
      addr = addr_field addr;
    })

abbrev pub create_d2h_rsp : ℕ → D2hRspOpcode → D2hRspPacket
create_d2h_rsp uqid opcode = record { cache_opcode = opcode; uqid = uqid % 2 ^ 12 }

-- The data field is 64 bytes.
unfoldable pub create_d2h_data : ℕ → ℕ → Result D2hDataPacket
create_d2h_data uqid value =
    guard (ltb value (2 ^ 512)) overflow_error
    >> ok (record { uqid = uqid % 2 ^ 12; value = value })

unfoldable pub create_h2d_req : ℕ → ℕ → H2dReqOpcode → Result H2dReqPacket
unfolding addr_field
create_h2d_req addr cache_id opcode =
    guard ((addr % 64) == 0) exception
    >> ok (record { cache_opcode = opcode; addr = addr_field addr; cache_id = cache_id % 2 ^ 4 })

abbrev pub create_h2d_rsp : ℕ → H2dRspOpcode → ℕ → ℕ → H2dRspPacket
create_h2d_rsp cache_id opcode rsp_data cqid = record {
  cache_opcode = opcode;
  rsp_data = rsp_data % 2 ^ 12;
  cqid = cqid % 2 ^ 12;
  cache_id = cache_id % 2 ^ 4;
}

unfoldable pub create_h2d_data : ℕ → ℕ → ℕ → Result H2dDataPacket
create_h2d_data cache_id value cqid =
    guard (ltb value (2 ^ 512)) overflow_error
    >> ok (record { cqid = cqid % 2 ^ 12; cache_id = cache_id % 2 ^ 4; value = value })

-- ===== src/CxlMem.antt =====
-- opencxl/cxl/transport/transaction.py: the CXL.mem packets. A packet is the fields of its header
-- that the code reads or sets to something of its own; the opcodes are the enumerations, whose
-- numbers are those that the `create` functions write.
use opencxl_core.Prelude.{
  ℕ, ◌+◌, ◌%◌, ◌^◌, Bool, ltb, ◌==◌, Result, ok, ◌>>◌, guard, exception, overflow_error,
}
use opencxl_core.Prelude.Bits.{shl, shr}

pub data MetaField : Type 0 where
  meta0_state meta_no_op : MetaField

pub data MetaValue : Type 0 where
  meta_invalid meta_any meta_shared : MetaValue

pub data M2sSnpType : Type 0 where
  snp_type_no_op snp_type_data snp_type_cur snp_type_inv : M2sSnpType

pub data M2sReqOpcode : Type 0 where
  mem_inv mem_rd mem_rd_data mem_rd_fwd mem_wr_fwd mem_spec_rd mem_inv_nt mem_cln_evct :
      M2sReqOpcode

pub data M2sRwdOpcode : Type 0 where
  mem_wr mem_wr_ptl bi_conflict : M2sRwdOpcode

pub data M2sBirspOpcode : Type 0 where
  birsp_i birsp_s birsp_e birsp_iblk birsp_sblk birsp_eblk : M2sBirspOpcode

pub data S2mBisnpOpcode : Type 0 where
  bisnp_cur bisnp_data bisnp_inv bisnp_cur_blk bisnp_data_blk bisnp_inv_blk : S2mBisnpOpcode

pub data S2mNdrOpcode : Type 0 where
  cmp cmp_s cmp_e cmp_m bi_conflict_ack : S2mNdrOpcode

pub data S2mDrsOpcode : Type 0 where
  mem_data mem_data_nxm : S2mDrsOpcode

pub record M2sReqPacket : Type 0 where
  pub mem_opcode : M2sReqOpcode
  pub meta_field : MetaField
  pub meta_value : MetaValue
  pub snp_type : M2sSnpType
  pub addr : ℕ

pub record M2sRwdPacket : Type 0 where
  pub mem_opcode : M2sRwdOpcode
  pub meta_field : MetaField
  pub meta_value : MetaValue
  pub snp_type : M2sSnpType
  pub addr : ℕ
  pub data_value : ℕ

pub record M2sBirspPacket : Type 0 where
  pub opcode : M2sBirspOpcode
  pub bi_id : ℕ
  pub bi_tag : ℕ

pub data M2sPacket : Type 0 where
  m2s_req : M2sReqPacket → M2sPacket
  m2s_rwd : M2sRwdPacket → M2sPacket
  m2s_birsp : M2sBirspPacket → M2sPacket

pub record S2mBisnpPacket : Type 0 where
  pub opcode : S2mBisnpOpcode
  pub bi_id : ℕ
  pub bi_tag : ℕ
  pub addr : ℕ

pub record S2mNdrPacket : Type 0 where
  pub opcode : S2mNdrOpcode
  pub meta_field : MetaField
  pub meta_value : MetaValue

pub record S2mDrsPacket : Type 0 where
  pub opcode : S2mDrsOpcode
  pub data_value : ℕ

-- What a device sends to the host; any other packet is one of a class or a protocol that the host
-- does not take.
pub data S2mPacket : Type 0 where
  s2m_ndr_packet : S2mNdrPacket → S2mPacket
  s2m_drs_packet : S2mDrsPacket → S2mPacket
  s2m_bisnp_packet : S2mBisnpPacket → S2mPacket
  other_packet : S2mPacket

-- The address field is 46 bits wide and starts at bit 6 of the address.
unfoldable pub addr_field : ℕ → ℕ
addr_field addr = shr addr 6 % 2 ^ 46

-- `get_address` of each packet that has one.
unfoldable pub get_address : ℕ → ℕ
get_address field = shl field 6

abbrev is_aligned : ℕ → Bool
is_aligned addr = (addr % 64) == 0

unfoldable pub create_mem_rd :
    ℕ → M2sReqOpcode → MetaField → MetaValue → M2sSnpType → Result M2sPacket
unfolding addr_field
create_mem_rd addr opcode meta_field meta_value snp_type =
    guard (is_aligned addr) exception
    >> ok (
        m2s_req (record {
          mem_opcode = opcode;
          meta_field = meta_field;
          meta_value = meta_value;
          snp_type = snp_type;
          addr = addr_field addr;
        }))

-- The data field is 64 bytes, and `int.to_bytes` takes no number that is longer.
unfoldable pub create_mem_wr :
    ℕ → ℕ → M2sRwdOpcode → MetaField → MetaValue → M2sSnpType → Result M2sPacket
unfolding addr_field
create_mem_wr addr value opcode meta_field meta_value snp_type =
    guard (is_aligned addr) exception
    >> (guard (ltb value (2 ^ 512)) overflow_error
        >> ok (
            m2s_rwd (record {
              mem_opcode = opcode;
              meta_field = meta_field;
              meta_value = meta_value;
              snp_type = snp_type;
              addr = addr_field addr;
              data_value = value;
            })))

-- The two tags of a response are 12 bits wide.
unfoldable pub create_birsp : M2sBirspOpcode → ℕ → ℕ → M2sPacket
create_birsp opcode bi_id bi_tag =
    m2s_birsp (record { opcode = opcode; bi_id = bi_id % 2 ^ 12; bi_tag = bi_tag % 2 ^ 12 })

-- `CxlMemBISnpPacket.tag`, the class's counter of snoops: the tag used, and the counter after it.
unfoldable pub get_tag : ℕ → ℕ × ℕ
get_tag tag = (tag, (tag + 1) % 4096)

-- The tag given as an argument is overwritten with the counter's. The result is with the counter.
unfoldable pub create_bisnp : ℕ → S2mBisnpOpcode → ℕ → ℕ → Result (S2mBisnpPacket × ℕ)
unfolding addr_field get_tag
create_bisnp addr opcode bi_id tag =
    guard (is_aligned addr) exception
    >> ok (
      record {
        opcode = opcode;
        bi_id = bi_id % 2 ^ 12;
        bi_tag = (get_tag tag).0 % 2 ^ 12;
        addr = addr_field addr;
      },
      (get_tag tag).1,
    )

unfoldable pub create_mem_data : ℕ → S2mDrsOpcode → Result S2mDrsPacket
create_mem_data value opcode =
    guard (ltb value (2 ^ 512)) overflow_error
    >> ok (record { opcode = opcode; data_value = value })

unfoldable pub create_cmp : S2mNdrOpcode → MetaField → MetaValue → S2mNdrPacket
create_cmp opcode meta_field meta_value = record {
  opcode = opcode;
  meta_field = meta_field;
  meta_value = meta_value;
}

-- ===== src/MemDcoh.antt =====
-- opencxl/cxl/component/cxl_mem_dcoh.py: `CxlMemDcoh`, the coherency engine of a memory device, and the
-- reads and writes of opencxl/cxl/component/cxl_memory_device_component.py that it makes. The
-- memory is a function from the address of a line in the device to the line; `get_dpa` is the
-- translation of the device's HDM decoders.
pub mod Handlers
pub mod Reply
pub mod Idle
pub mod Memory
pub mod Completed
pub mod Exchange
pub mod Filter
use opencxl_core.Prelude.{
  ℕ, Bool, true, false, ◌&&◌, ◌||◌, Option, none, some, List, [], ◌∷◌, ◌++◌, if◌then◌else◌, ◌==◌,
  Result, ok, err, ◌>>=◌, ◌>>◌, guard, exception, attribute_error, unbound_local, blocked,
}
use opencxl_core.Cache.Fifo.{
  CacheRequest, CacheRequestType, CacheResponse, CacheResponseStatus, snp_data, snp_inv, snp_cur,
  rsp_miss, rsp_s, rsp_i,
}
use opencxl_core.CxlMem.{
  MetaField, MetaValue, M2sSnpType, M2sReqOpcode, M2sReqPacket, M2sRwdPacket, M2sBirspPacket,
  S2mNdrPacket, S2mDrsPacket, S2mPacket, s2m_ndr_packet, s2m_drs_packet, meta0_state, meta_no_op,
  meta_invalid, meta_any, meta_shared, snp_type_no_op, snp_type_data, snp_type_cur, snp_type_inv,
  mem_inv, mem_rd, mem_rd_data, S2mNdrOpcode, cmp, cmp_s, cmp_e, mem_data, get_address,
  create_mem_data, create_cmp,
}
use opencxl_core.HomeAgent.{CohState, coh_state_init, coh_state_start, coh_state_wait}

-- A snoop of the device's cache. An address that no decoder takes is `None` in the request.
abbrev pub Snoop : Type 0
Snoop = CacheRequestType × Option ℕ

pub record MemDcoh : Type 0 where
  pub has_device : Bool
  pub state : CohState
  pub packet : Option CacheRequest
  pub sf_host : Option ℕ → Bool
  pub memory : ℕ → ℕ
  pub cache_requests : List (Option CacheRequest)
  pub snoop_responses : List CacheResponse
  pub m2s_req : List M2sReqPacket
  pub m2s_rwd : List M2sRwdPacket
  pub m2s_birsp : List M2sBirspPacket
  pub snoops : List Snoop
  pub target_to_host : List S2mPacket
  pub stop_process : Bool

abbrev pub new_mem_dcoh : MemDcoh
new_mem_dcoh = record {
  has_device = false;
  state = coh_state_init;
  packet = none;
  sf_host = λ addr. false;
  memory = λ dpa. 0;
  cache_requests = [];
  snoop_responses = [];
  m2s_req = [];
  m2s_rwd = [];
  m2s_birsp = [];
  snoops = [];
  target_to_host = [];
  stop_process = false;
}

abbrev pub set_memory_device_component : MemDcoh → MemDcoh
set_memory_device_component d = record d { has_device = true }

unfoldable pub same_addr : Option ℕ → Option ℕ → Bool
same_addr none none = true
same_addr (some a) (some b) = a == b
same_addr _ _ = false

pub data SfUpdateType : Type 0 where
  sf_host_in sf_host_out : SfUpdateType

-- The members of a set of addresses, after an update of one address.
unfoldable pub snoop_filter_update : Option ℕ → SfUpdateType → MemDcoh → MemDcoh
unfolding same_addr
snoop_filter_update addr sf_host_in d = record d {
  sf_host = λ a. if same_addr addr a then true else d.sf_host a;
}
snoop_filter_update addr sf_host_out d = record d {
  sf_host = λ a. if same_addr addr a then false else d.sf_host a;
}

-- Each call here has a list of at most one update.
unfoldable pub update_all : Option ℕ → List SfUpdateType → MemDcoh → MemDcoh
unfolding snoop_filter_update
update_all addr [] d = d
update_all addr (u ∷ us) d = update_all addr us (snoop_filter_update addr u d)

abbrev pub sf_host_is_hit : Option ℕ → MemDcoh → Bool
sf_host_is_hit addr d = d.sf_host addr

-- `_create_mem_rsp_packet` makes both packets, of which a caller may send one.
unfoldable pub create_mem_rsp_packet :
    S2mNdrOpcode → ℕ → MetaValue → Result (S2mNdrPacket × S2mDrsPacket)
unfolding create_mem_data create_cmp
create_mem_rsp_packet ndr_opcode value meta_value = do
  drs ← create_mem_data value mem_data
  ok (create_cmp ndr_opcode meta_no_op meta_value, drs)

abbrev pub send : S2mPacket → MemDcoh → MemDcoh
send packet d = record d { target_to_host = d.target_to_host ++ packet ∷ [] }

-- The request is put to the device's cache, and its answer awaited.
unfoldable pub snoop_cache : Snoop → MemDcoh → Result (CacheResponse × MemDcoh)
snoop_cache snoop d = elim d.snoop_responses [
  | [] ↦ err blocked
  | r ∷ rest ↦ ok (r, record d { snoops = d.snoops ++ snoop ∷ []; snoop_responses = rest })
]

unfoldable pub snoop_type : M2sSnpType → Result CacheRequestType
snoop_type snp_type_data = ok snp_data
snoop_type snp_type_inv = ok snp_inv
snoop_type snp_type_cur = ok snp_cur
snoop_type snp_type_no_op = err unbound_local

unfoldable pub is_data_read : M2sReqOpcode → Bool
is_data_read mem_rd = true
is_data_read mem_rd_data = true
is_data_read _ = false

-- What a request of the host is answered when the device's cache has no such line, and what is entered in
-- the snoop filter.
unfoldable pub missed : M2sReqPacket → S2mNdrOpcode × List SfUpdateType
missed p = elim p.snp_type [
  | snp_type_data ↦ (cmp_e, sf_host_in ∷ [])
  | snp_type_inv ↦ elim p.meta_value [ meta_any ↦ (cmp_e, sf_host_in ∷ []) | _ ↦ (cmp, []) ]
  | _ ↦ (cmp, [])
]

-- The same for a line that the device's cache has, with whether the line is flushed to memory. The
-- meta field is not NO_OP here.
unfoldable pub found : M2sReqPacket → CacheResponseStatus → S2mNdrOpcode × List SfUpdateType × Bool
found p rsp_s = (cmp_s, sf_host_in ∷ [], false)
found p rsp_i = elim p.meta_value [
  | meta_any ↦ (cmp_e, sf_host_in ∷ [], false)
  | meta_invalid ↦ elim p.mem_opcode [ mem_rd ↦ (cmp, [], true) | _ ↦ (cmp, [], false) ]
  | meta_shared ↦ (cmp, [], false)
]
found p _ = (cmp, [], false)

-- The packets that answer a request, sent in order.
unfoldable pub send_response : Bool → S2mNdrOpcode → ℕ → MemDcoh → Result MemDcoh
unfolding create_mem_rsp_packet
send_response true opcode value d = do
  (ndr, drs) ← create_mem_rsp_packet opcode value meta_any
  ok (send (s2m_drs_packet drs) (send (s2m_ndr_packet ndr) d))
send_response false opcode value d = do
  (ndr, drs) ← create_mem_rsp_packet opcode value meta_invalid
  ok (send (s2m_ndr_packet ndr) d)

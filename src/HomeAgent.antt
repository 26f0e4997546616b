-- ===== src/HomeAgent.antt =====
-- opencxl/cxl/component/root_complex/home_agent.py: `HomeAgent`, its state machine. A queue is the
-- list of what waits in it, and what the agent puts is appended to a list. Its handlers run in one
-- task, the main loop; an `await` on an empty queue ends in `blocked`, so that the loop's step stands
-- for one that runs when the queue has been filled.
pub mod Loop
pub mod Fairness
pub mod Host
pub mod Snoop
pub mod Chunks
use opencxl_core.Prelude.{
  ℕ, ◌≡◌, Bool, true, false, Option, none, some, List, [], ◌∷◌, ◌++◌, if◌then◌else◌, Result, ok,
  err, ◌>>=◌, exception, assertion_error, attribute_error, unbound_local, blocked,
}
use opencxl_core.Cache.Fifo.{
  CacheRequest, CacheRequestType, CacheResponse, CacheResponseStatus, read, write, snp_data,
  snp_inv, snp_cur, write_back, uncached_write, uncached_read, ok_status, rsp_s, rsp_i, rsp_miss,
}
use opencxl_core.CxlMem.{
  MetaField, MetaValue, M2sSnpType, M2sReqOpcode, M2sBirspOpcode, M2sPacket, S2mBisnpPacket,
  S2mNdrPacket, S2mDrsPacket, meta0_state, meta_no_op, meta_invalid, meta_any, meta_shared,
  snp_type_no_op, snp_type_data, snp_type_cur, snp_type_inv, mem_inv, mem_rd, mem_wr, birsp_i,
  birsp_s, bisnp_data, bisnp_inv, cmp_s, cmp_e, cmp_m, mem_data, mem_data_nxm, get_address,
  create_mem_rd, create_mem_wr, create_birsp,
}

pub data CohState : Type 0 where
  coh_state_init coh_state_start coh_state_wait coh_state_done : CohState

-- `cur_state.packet` with the function that the loop links to it (`fn`). A `None` from the cache is
-- the mark that stops the loop.
pub data CurrentPacket : Type 0 where
  no_packet : CurrentPacket
  host_packet : CacheRequest → CurrentPacket
  snoop_packet : S2mBisnpPacket → CurrentPacket

pub record CohStateMachine : Type 0 where
  pub state : CohState
  pub packet : CurrentPacket
  pub cache_rsp : M2sBirspOpcode
  pub birsp_sched : Bool

-- The queues that the agent reads: the cache's requests and its answers to snoops, and the three
-- channels from the device; what it has put: responses and snoops to the cache, and packets to the
-- device; and the loop's own variables.
pub record HomeAgent : Type 0 where
  pub cur_state : CohStateMachine
  pub cache_requests : List (Option CacheRequest)
  pub snoop_responses : List CacheResponse
  pub s2m_ndr : List S2mNdrPacket
  pub s2m_drs : List S2mDrsPacket
  pub s2m_bisnp : List S2mBisnpPacket
  pub cache_responses : List CacheResponse
  pub snoop_requests : List CacheRequest
  pub host_to_target : List M2sPacket
  pub fc_host_run : Bool
  pub stop_process : Bool

abbrev pub new_home_agent : HomeAgent
new_home_agent = record {
  cur_state = record {
    state = coh_state_init;
    packet = no_packet;
    cache_rsp = birsp_i;
    birsp_sched = false;
  };
  cache_requests = [];
  snoop_responses = [];
  s2m_ndr = [];
  s2m_drs = [];
  s2m_bisnp = [];
  cache_responses = [];
  snoop_requests = [];
  host_to_target = [];
  fc_host_run = false;
  stop_process = false;
}

abbrev pub set_state : CohState → HomeAgent → HomeAgent
set_state state h = record h { cur_state = record (h.cur_state) { state = state } }

abbrev pub set_birsp_sched : Bool → HomeAgent → HomeAgent
set_birsp_sched sched h = record h { cur_state = record (h.cur_state) { birsp_sched = sched } }

abbrev pub put_target : M2sPacket → HomeAgent → HomeAgent
put_target packet h = record h { host_to_target = h.host_to_target ++ packet ∷ [] }

abbrev pub put_response : CacheResponse → HomeAgent → HomeAgent
put_response packet h = record h { cache_responses = h.cache_responses ++ packet ∷ [] }

abbrev pub response : CacheResponseStatus → ℕ → CacheResponse
response status value = record { status = status; value = value }

-- The end of a response without a status: the scheduled answer to a snoop is sent. It takes its tags
-- from the current packet, which must be a snoop.
unfoldable pub complete : HomeAgent → Result HomeAgent
unfolding create_birsp
complete h =
    if h.cur_state.birsp_sched
    then elim h.cur_state.packet [
      | snoop_packet p ↦ ok (
          set_state coh_state_init (
            set_birsp_sched false
              (put_target (create_birsp h.cur_state.cache_rsp p.bi_id p.bi_tag) h)))
      | _ ↦ err attribute_error
    ]
    else ok (set_state coh_state_init h)

-- A response with a status, or with a `status` that no branch has assigned. With the meta value ANY
-- the data comes on the other channel.
unfoldable pub respond_with : Option CacheResponseStatus → ℕ → HomeAgent → Result HomeAgent
respond_with none value h = err unbound_local
respond_with (some status) value h =
    ok (set_state coh_state_init (put_response (response status value) h))

unfoldable pub respond : Option CacheResponseStatus → MetaValue → HomeAgent → Result HomeAgent
unfolding respond_with
respond status meta_any h = elim h.s2m_drs [
  | [] ↦ err blocked
  | p ∷ rest ↦ respond_with status p.data_value (record h { s2m_drs = rest })
]
respond status _ h = respond_with status 0 h

unfoldable pub process_cxl_s2m_rsp_packet : S2mNdrPacket → HomeAgent → Result HomeAgent
unfolding respond complete
process_cxl_s2m_rsp_packet p h = elim p.opcode [
  | cmp_s ↦ respond (some rsp_s) p.meta_value h
  | cmp_e ↦ respond (some rsp_i) p.meta_value h
  | cmp_m ↦ respond none p.meta_value h
  | _ ↦ complete h
]

unfoldable pub process_cxl_s2m_drs_packet : S2mDrsPacket → HomeAgent → Result HomeAgent
process_cxl_s2m_drs_packet p h = elim p.opcode [
  | mem_data_nxm ↦ err assertion_error
  | mem_data ↦ ok (set_state coh_state_init (put_response (response ok_status p.data_value) h))
]

-- The request that a snoop from the device makes of the cache; for the other opcodes no branch
-- assigns it.
unfoldable pub snoop_request : S2mBisnpPacket → Result CacheRequest
unfolding get_address
snoop_request p = elim p.opcode [
  | bisnp_data ↦ ok (record { type = snp_data; addr = get_address p.addr; size = 0; value = 0 })
  | bisnp_inv ↦ ok (record { type = snp_inv; addr = get_address p.addr; size = 0; value = 0 })
  | _ ↦ err unbound_local
]

-- What follows the cache's answer: an answer to the device at once when the cache has no such line,
-- or the line's data, with the answer scheduled for when the device has it.
unfoldable pub snoop_answered : S2mBisnpPacket → CacheResponse → HomeAgent → Result HomeAgent
unfolding get_address create_birsp create_mem_wr
snoop_answered p r h = elim r.status [
  | rsp_miss ↦ ok (put_target (create_birsp birsp_i p.bi_id p.bi_tag) (set_state coh_state_init h))
  | status ↦ do
    packet ←
        create_mem_wr (get_address p.addr) r.value mem_wr meta0_state meta_invalid snp_type_no_op
    ok (
        put_target packet (record h {
          cur_state = record (h.cur_state) {
            state = coh_state_wait;
            cache_rsp = elim status [ rsp_s ↦ birsp_s | _ ↦ birsp_i ];
            birsp_sched = true;
          };
        }))
]

unfoldable pub process_cxl_s2m_bisnp_packet : S2mBisnpPacket → HomeAgent → Result HomeAgent
unfolding snoop_request snoop_answered
process_cxl_s2m_bisnp_packet p h = elim h.cur_state.state [
  | coh_state_start ↦ do
    request ← snoop_request p
    let asked = record h { snoop_requests = h.snoop_requests ++ request ∷ [] }
    elim asked.snoop_responses [
      | [] ↦ err blocked
      | r ∷ rest ↦ snoop_answered p r (record asked { snoop_responses = rest })
    ]
  | _ ↦ ok h
]

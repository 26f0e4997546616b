-- ===== src/HomeAgent/Loop.antt =====
-- opencxl/cxl/component/root_complex/home_agent.py: the requests of the cache, the main loop, the task
-- that distributes the packets from the device, and the steps of the agent in its environment.
use opencxl_core.Prelude.{
  ◌≡◌, Bool, true, false, Option, none, some, List, [], ◌∷◌, ◌++◌, if◌then◌else◌, Result, ok, err,
  ◌>>=◌, exception, attribute_error,
}
use opencxl_core.Cache.Fifo.{
  CacheRequest, CacheRequestType, CacheResponse, read, write, snp_data, snp_inv, snp_cur,
  write_back, uncached_write, uncached_read, ok_status,
}
use opencxl_core.CxlMem.{
  S2mPacket, s2m_ndr_packet, s2m_drs_packet, s2m_bisnp_packet, other_packet, M2sPacket,
  S2mBisnpPacket, meta0_state, meta_no_op, meta_invalid, meta_any, meta_shared, snp_type_no_op,
  snp_type_data, snp_type_cur, snp_type_inv, mem_inv, mem_rd, mem_wr, create_mem_rd, create_mem_wr,
}
use opencxl_core.HomeAgent.{
  HomeAgent, CurrentPacket, coh_state_init, coh_state_start, coh_state_wait, no_packet, host_packet,
  snoop_packet, set_state, put_target, put_response, response, process_cxl_s2m_rsp_packet,
  process_cxl_s2m_drs_packet, process_cxl_s2m_bisnp_packet,
}

-- What a request of the cache asks of the device.
unfoldable pub request_packet : CacheRequest → Result M2sPacket
unfolding create_mem_rd create_mem_wr
request_packet r = elim r.type [
  | write ↦ create_mem_wr r.addr r.value mem_wr meta_no_op meta_any snp_type_no_op
  | write_back ↦ create_mem_wr r.addr r.value mem_wr meta0_state meta_invalid snp_type_no_op
  | uncached_write ↦ create_mem_wr r.addr r.value mem_wr meta_no_op meta_any snp_type_no_op
  | read ↦ create_mem_rd r.addr mem_rd meta_no_op meta_any snp_type_no_op
  | snp_data ↦ create_mem_rd r.addr mem_rd meta0_state meta_shared snp_type_data
  | snp_inv ↦ create_mem_rd r.addr mem_inv meta0_state meta_any snp_type_inv
  | snp_cur ↦ create_mem_rd r.addr mem_rd meta0_state meta_invalid snp_type_cur
  | uncached_read ↦ create_mem_rd r.addr mem_rd meta_no_op meta_any snp_type_no_op
]

-- The requests that the agent answers when it sends the packet on.
unfoldable pub is_write : CacheRequestType → Bool
is_write write = true
is_write write_back = true
is_write uncached_write = true
is_write _ = false

unfoldable pub process_upstream_host_to_target_packets : CacheRequest → HomeAgent → Result HomeAgent
unfolding request_packet is_write
process_upstream_host_to_target_packets r h = elim h.cur_state.state [
  | coh_state_start ↦ do
    packet ← request_packet r
    let answered = if is_write r.type then put_response (response ok_status 0) h else h
    ok (put_target packet (set_state coh_state_wait answered))
  | _ ↦ ok h
]

-- The loop takes a packet from a queue.
abbrev pub start_with : CurrentPacket → HomeAgent → HomeAgent
start_with packet h = record h {
  cur_state = record (h.cur_state) { state = coh_state_start; packet = packet };
}

unfoldable pub take_host : Option CacheRequest → List (Option CacheRequest) → HomeAgent → HomeAgent
take_host none rest h =
    start_with no_packet
      (record h { cache_requests = rest; fc_host_run = true; stop_process = true })
take_host (some r) rest h =
    start_with (host_packet r) (record h { cache_requests = rest; fc_host_run = true })

unfoldable pub take_snoop : S2mBisnpPacket → List S2mBisnpPacket → HomeAgent → HomeAgent
take_snoop p rest h =
    start_with (snoop_packet p) (record h { s2m_bisnp = rest; fc_host_run = false })

-- The two sides in turn: the side that was not served last comes first, if it has a packet.
unfoldable pub select : HomeAgent → HomeAgent
unfolding take_host take_snoop
select h =
    if h.fc_host_run
    then elim h.s2m_bisnp [
      | p ∷ rest ↦ take_snoop p rest h
      | [] ↦ elim h.cache_requests [ r ∷ rest ↦ take_host r rest h | [] ↦ h ]
    ]
    else elim h.cache_requests [
      | r ∷ rest ↦ take_host r rest h
      | [] ↦ elim h.s2m_bisnp [ p ∷ rest ↦ take_snoop p rest h | [] ↦ h ]
    ]

-- `fn(cur_state.packet)`.
unfoldable pub process_current : HomeAgent → Result HomeAgent
unfolding process_upstream_host_to_target_packets
process_current h = elim h.cur_state.packet [
  | no_packet ↦ err attribute_error
  | host_packet r ↦ process_upstream_host_to_target_packets r h
  | snoop_packet p ↦ process_cxl_s2m_bisnp_packet p h
]

unfoldable pub process_ndr : HomeAgent → Result HomeAgent
process_ndr h = elim h.s2m_ndr [
  | [] ↦ ok h
  | p ∷ rest ↦ process_cxl_s2m_rsp_packet p (record h { s2m_ndr = rest })
]

unfoldable pub process_drs : HomeAgent → Result HomeAgent
process_drs h = elim h.s2m_drs [
  | [] ↦ ok h
  | p ∷ rest ↦ process_cxl_s2m_drs_packet p (record h { s2m_drs = rest })
]

-- One turn of `_home_agent_coherency_main_loop`.
unfoldable pub step : HomeAgent → Result HomeAgent
unfolding select process_current process_ndr process_drs
step h = elim h.cur_state.state [
  | coh_state_init ↦ ok (select h)
  | _ ↦ process_current h >>= process_ndr >>= process_drs
]

-- `_process_downstream_target_to_host_packets`, for one packet. One of another class, or of another
-- protocol, stops the task.
unfoldable pub process_downstream_target_to_host_packet : S2mPacket → HomeAgent → Result HomeAgent
process_downstream_target_to_host_packet (s2m_ndr_packet p) h =
    ok (record h { s2m_ndr = h.s2m_ndr ++ p ∷ [] })
process_downstream_target_to_host_packet (s2m_drs_packet p) h =
    ok (record h { s2m_drs = h.s2m_drs ++ p ∷ [] })
process_downstream_target_to_host_packet (s2m_bisnp_packet p) h =
    ok (record h { s2m_bisnp = h.s2m_bisnp ++ p ∷ [] })
process_downstream_target_to_host_packet other_packet h = err exception

-- The agent among its neighbours: the loop turns, the cache asks or answers, a packet arrives.
pub data Step (h h' : HomeAgent) : Type 0 where
  turn : h.stop_process ≡ false → step h ≡ ok h' → Step h h'
  asked :
      (r : Option CacheRequest)
      → h' ≡ record h { cache_requests = h.cache_requests ++ r ∷ [] }
      → Step h h'
  answered :
      (r : CacheResponse)
      → h' ≡ record h { snoop_responses = h.snoop_responses ++ r ∷ [] }
      → Step h h'
  arrived : (p : S2mPacket) → process_downstream_target_to_host_packet p h ≡ ok h' → Step h h'

pub data Run (h : HomeAgent) : HomeAgent → Type 0 where
  here : Run h h
  next : {u v : HomeAgent} → Run h u → Step u v → Run h v

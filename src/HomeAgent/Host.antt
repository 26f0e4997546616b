-- ===== src/HomeAgent/Host.antt =====
-- opencxl/cxl/component/root_complex/home_agent.py: a request of the cache, from the queue to its
-- response.
use opencxl_core.Prelude.{
  Result-cases, ℕ, ◌≡◌, ◌≢◌, ◌%◌, ◌^◌, ◌<◌, ◌⊎◌, inl, inr, arith, Bool, true, false, Option, none,
  some, List, [], ◌∷◌, ◌++◌, Result, ok, ◌>>=◌,
}
use opencxl_core.Cache.Fifo.{CacheRequest, CacheResponse, ok_status, rsp_s, rsp_i}
use opencxl_core.CxlMem.{
  S2mPacket, s2m_ndr_packet, s2m_drs_packet, m2s_req, m2s_rwd, m2s_birsp, get_address, addr_field,
  M2sPacket, S2mNdrPacket, S2mDrsPacket, meta_any, cmp, cmp_s, cmp_e, mem_data, create_mem_rd,
  create_mem_wr,
}
use opencxl_core.HomeAgent.{
  HomeAgent, coh_state_init, coh_state_wait, host_packet, response, complete, respond_with, respond,
  process_cxl_s2m_rsp_packet, process_cxl_s2m_drs_packet,
}
use opencxl_core.HomeAgent.Loop.{
  request_packet, is_write, process_upstream_host_to_target_packets, take_host, select,
  process_current, process_ndr, process_drs, step, process_downstream_target_to_host_packet,
}

-- The packets arrive from the device, one after another.
unfoldable pub deliver : List S2mPacket → HomeAgent → Result HomeAgent
deliver [] h = ok h
deliver (p ∷ ps) h = process_downstream_target_to_host_packet p h >>= deliver ps

-- What a device answers, with the response that the cache should then have: `cmp` to a write, and to
-- a read its data, alone or behind a completion, or a completion that grants a state, with the data
-- behind it if it announces data.
pub data Reply (is_write : Bool) (c : CacheResponse) : List S2mPacket → Type 0 where
  written :
      (p : S2mNdrPacket)
      → is_write ≡ true
      → p.opcode ≡ cmp
      → c ≡ response ok_status 0
      → Reply is_write c (s2m_ndr_packet p ∷ [])
  read_data :
      (d : S2mDrsPacket)
      → is_write ≡ false
      → d.opcode ≡ mem_data
      → c ≡ response ok_status d.data_value
      → Reply is_write c (s2m_drs_packet d ∷ [])
  completed_data :
      (p : S2mNdrPacket) (d : S2mDrsPacket)
      → is_write ≡ false
      → p.opcode ≡ cmp
      → d.opcode ≡ mem_data
      → c ≡ response ok_status d.data_value
      → Reply is_write c (s2m_ndr_packet p ∷ s2m_drs_packet d ∷ [])
  shared :
      (p : S2mNdrPacket) (d : S2mDrsPacket)
      → is_write ≡ false
      → p.opcode ≡ cmp_s
      → p.meta_value ≡ meta_any
      → c ≡ response rsp_s d.data_value
      → Reply is_write c (s2m_ndr_packet p ∷ s2m_drs_packet d ∷ [])
  exclusive :
      (p : S2mNdrPacket) (d : S2mDrsPacket)
      → is_write ≡ false
      → p.opcode ≡ cmp_e
      → p.meta_value ≡ meta_any
      → c ≡ response rsp_i d.data_value
      → Reply is_write c (s2m_ndr_packet p ∷ s2m_drs_packet d ∷ [])
  shared_no_data :
      (p : S2mNdrPacket)
      → is_write ≡ false
      → p.opcode ≡ cmp_s
      → p.meta_value ≢ meta_any
      → c ≡ response rsp_s 0
      → Reply is_write c (s2m_ndr_packet p ∷ [])
  exclusive_no_data :
      (p : S2mNdrPacket)
      → is_write ≡ false
      → p.opcode ≡ cmp_e
      → p.meta_value ≢ meta_any
      → c ≡ response rsp_i 0
      → Reply is_write c (s2m_ndr_packet p ∷ [])

-- It is the cache's turn, its first request is `r`, and no response is left from before.
pub record IsReady (h : HomeAgent) (r : CacheRequest) (rest : List (Option CacheRequest))
    : Type 0 where
  pub initial : h.cur_state.state ≡ coh_state_init
  pub queued : h.cache_requests ≡ some r ∷ rest
  pub turn : (h.fc_host_run ≡ false) ⊎ (h.s2m_bisnp ≡ [])
  pub no_ndr : h.s2m_ndr ≡ []
  pub no_drs : h.s2m_drs ≡ []
  pub not_sched : h.cur_state.birsp_sched ≡ false

-- The agent in the middle of the exchange, and at its end.
abbrev sent :
    HomeAgent
    → CacheRequest
    → List (Option CacheRequest)
    → M2sPacket
    → List CacheResponse
    → HomeAgent
sent h r rest packet cs = record h {
  cur_state = record (h.cur_state) { state = coh_state_wait; packet = host_packet r };
  cache_requests = rest;
  fc_host_run = true;
  host_to_target = h.host_to_target ++ packet ∷ [];
  cache_responses = cs;
}

abbrev pub served :
    HomeAgent → CacheRequest → List (Option CacheRequest) → M2sPacket → CacheResponse → HomeAgent
served h r rest packet c = record h {
  cur_state = record (h.cur_state) { state = coh_state_init; packet = host_packet r };
  cache_requests = rest;
  fc_host_run = true;
  host_to_target = h.host_to_target ++ packet ∷ [];
  cache_responses = h.cache_responses ++ c ∷ [];
}

abbrev first_response : HomeAgent → CacheRequest → List CacheResponse
first_response h r = elim (is_write r.type) [
  | true ↦ h.cache_responses ++ response ok_status 0 ∷ []
  | false ↦ h.cache_responses
]

send :
    (h : HomeAgent) (r : CacheRequest) (rest : List (Option CacheRequest)) (packet : M2sPacket)
    → IsReady h r rest
    → request_packet r ≡ ok packet
    → (step h >>= step) ≡ ok (sent h r rest packet (first_response h r))
unfolding step select take_host process_current process_upstream_host_to_target_packets process_ndr
    process_drs
send h r rest packet i e = ground (arith, i.initial, i.queued, i.turn, i.no_ndr, i.no_drs)

receive :
    (h : HomeAgent) (r : CacheRequest) (rest : List (Option CacheRequest)) (packet : M2sPacket)
    (replies : List S2mPacket) (c : CacheResponse)
    → IsReady h r rest
    → Reply (is_write r.type) c replies
    → (deliver replies (sent h r rest packet (first_response h r)) >>= step)
      ≡ ok (served h r rest packet c)
unfolding deliver process_downstream_target_to_host_packet step process_current
    process_upstream_host_to_target_packets process_ndr process_drs process_cxl_s2m_rsp_packet
    process_cxl_s2m_drs_packet respond respond_with complete
receive h r rest packet replies c i (written p w o e) =
    ground (arith, i.no_ndr, i.no_drs, i.not_sched)
receive h r rest packet replies c i (read_data d w o e) =
    ground (arith, i.no_ndr, i.no_drs, i.not_sched)
receive h r rest packet replies c i (completed_data p d w o m e) =
    ground (arith, i.no_ndr, i.no_drs, i.not_sched)
receive h r rest packet replies c i (shared p d w o m e) =
    ground (arith, i.no_ndr, i.no_drs, i.not_sched)
receive h r rest packet replies c i (exclusive p d w o m e) =
    ground (arith, i.no_ndr, i.no_drs, i.not_sched)
receive h r rest packet replies c i (shared_no_data p w o m e) =
    ground (arith, i.no_ndr, i.no_drs, i.not_sched)
receive h r rest packet replies c i (exclusive_no_data p w o m e) =
    ground (arith, i.no_ndr, i.no_drs, i.not_sched)

-- Two turns of the loop, the device's reply, and one more turn.
unfoldable pub exchange_host : List S2mPacket → HomeAgent → Result HomeAgent
unfolding deliver
exchange_host replies h = step h >>= step >>= deliver replies >>= step

-- A request of the cache is answered: when it is the request's turn, its packet can be built and
-- nothing is left from an earlier exchange, three turns of the loop, with the device's reply
-- before the third, succeed; they send exactly the request's packet, give the cache exactly one
-- response, the one that the reply calls for, and end in INIT with every other queue as it was.
pub exchange_host-served :
    (h : HomeAgent) (r : CacheRequest) (rest : List (Option CacheRequest)) (packet : M2sPacket)
    (replies : List S2mPacket) (c : CacheResponse)
    → IsReady h r rest
    → request_packet r ≡ ok packet
    → Reply (is_write r.type) c replies
    → exchange_host replies h ≡ ok (served h r rest packet c)
unfolding exchange_host
exchange_host-served h r rest packet replies c i e reply =
    rw (send h r rest packet i e) (receive h r rest packet replies c i reply)

-- The address that a packet carries, as the device reads it.
unfoldable pub packet_address : M2sPacket → Option ℕ
unfolding get_address
packet_address (m2s_req p) = some (get_address p.addr)
packet_address (m2s_rwd p) = some (get_address p.addr)
packet_address (m2s_birsp p) = none

pub get_address-addr_field : (a : ℕ) → a % 64 ≡ 0 → a < 2 ^ 52 → get_address (addr_field a) ≡ a
unfolding get_address addr_field
get_address-addr_field a h b = omega arith

-- Every request of the cache at a multiple of 64 below 2 ^ 52, with data of at most 64 bytes, has a
-- packet, and the device reads the request's address from it.
pub request_packet-packet_address :
    (r : CacheRequest)
    → r.addr % 64 ≡ 0
    → r.addr < 2 ^ 52
    → r.value < 2 ^ 512
    → (packet : M2sPacket) × (request_packet r ≡ ok packet) × (packet_address packet ≡ some r.addr)
unfolding request_packet create_mem_rd create_mem_wr packet_address
request_packet-packet_address r a b v = elim (Result-cases (request_packet r)) [
  | inr (x, e) ↦ absurd (ground (arith))
  | inl (packet, e) ↦ (packet, e, ground (arith, get_address-addr_field r.addr a b))
]

-- ===== src/HomeAgent/Snoop.antt =====
-- opencxl/cxl/component/root_complex/home_agent.py: a snoop of the device, from the queue to the
-- response that carries its tags.
use opencxl_core.Prelude.{◌≡◌, ◌≢◌, ◌⊎◌, arith, true, false, List, [], ◌∷◌, ◌++◌, Result, ok, ◌>>=◌}
use opencxl_core.Cache.Fifo.{CacheRequest, CacheResponse, CacheResponseStatus, rsp_s, rsp_miss}
use opencxl_core.CxlMem.{
  s2m_ndr_packet, M2sPacket, M2sBirspOpcode, S2mBisnpPacket, S2mNdrPacket, cmp, mem_wr, meta0_state,
  meta_invalid, snp_type_no_op, birsp_s, birsp_i, create_mem_wr, create_birsp, get_address,
}
use opencxl_core.HomeAgent.{
  HomeAgent, coh_state_init, coh_state_start, coh_state_wait, snoop_packet, complete,
  process_cxl_s2m_rsp_packet, snoop_request, snoop_answered, process_cxl_s2m_bisnp_packet,
}
use opencxl_core.HomeAgent.Loop.{
  take_snoop, select, process_current, process_ndr, process_drs, step,
  process_downstream_target_to_host_packet,
}

-- It is the device's turn, its first snoop is `p`, the cache will answer `c`, and nothing is left from
-- before.
pub record IsReady (h : HomeAgent) (p : S2mBisnpPacket) (rest : List S2mBisnpPacket)
    (c : CacheResponse) (later : List CacheResponse) : Type 0 where
  pub initial : h.cur_state.state ≡ coh_state_init
  pub queued : h.s2m_bisnp ≡ p ∷ rest
  pub turn : (h.fc_host_run ≡ true) ⊎ (h.cache_requests ≡ [])
  pub answer : h.snoop_responses ≡ c ∷ later
  pub no_ndr : h.s2m_ndr ≡ []
  pub no_drs : h.s2m_drs ≡ []

-- The response that the cache's answer calls for.
unfoldable pub birsp_of : CacheResponseStatus → M2sBirspOpcode
birsp_of rsp_s = birsp_s
birsp_of _ = birsp_i

-- The agent after the snoop was taken and the cache was asked.
abbrev asked :
    HomeAgent → S2mBisnpPacket → List S2mBisnpPacket → List CacheResponse → CacheRequest → HomeAgent
asked h p rest later request = record h {
  cur_state = record (h.cur_state) { state = coh_state_start; packet = snoop_packet p };
  s2m_bisnp = rest;
  fc_host_run = false;
  snoop_responses = later;
  snoop_requests = h.snoop_requests ++ request ∷ [];
}

-- A miss in the cache: in two turns of the loop the cache is asked once, and the device gets the
-- response I at once, with the tags of the snoop and no data; the agent is in INIT again.
pub snoop_missed :
    (h : HomeAgent) (p : S2mBisnpPacket) (rest : List S2mBisnpPacket) (c : CacheResponse)
    (later : List CacheResponse) (request : CacheRequest)
    → IsReady h p rest c later
    → snoop_request p ≡ ok request
    → c.status ≡ rsp_miss
    → (step h >>= step)
      ≡ ok (record (asked h p rest later request) {
        cur_state = record (h.cur_state) { state = coh_state_init; packet = snoop_packet p };
        host_to_target = h.host_to_target ++ create_birsp birsp_i p.bi_id p.bi_tag ∷ [];
      })
unfolding step select take_snoop process_current process_cxl_s2m_bisnp_packet snoop_answered
    process_ndr process_drs
snoop_missed h p rest c later request i e m =
    ground (arith, i.initial, i.queued, i.turn, i.answer, i.no_ndr, i.no_drs)

abbrev written :
    HomeAgent
    → S2mBisnpPacket
    → List S2mBisnpPacket
    → CacheResponse
    → List CacheResponse
    → CacheRequest
    → M2sPacket
    → HomeAgent
written h p rest c later request packet = record (asked h p rest later request) {
  cur_state = record (h.cur_state) {
    state = coh_state_wait;
    packet = snoop_packet p;
    cache_rsp = birsp_of c.status;
    birsp_sched = true;
  };
  host_to_target = h.host_to_target ++ packet ∷ [];
}

snoop_written :
    (h : HomeAgent) (p : S2mBisnpPacket) (rest : List S2mBisnpPacket) (c : CacheResponse)
    (later : List CacheResponse) (request : CacheRequest) (packet : M2sPacket)
    → IsReady h p rest c later
    → snoop_request p ≡ ok request
    → c.status ≢ rsp_miss
    → create_mem_wr (get_address p.addr) c.value mem_wr meta0_state meta_invalid snp_type_no_op
      ≡ ok packet
    → (step h >>= step) ≡ ok (written h p rest c later request packet)
unfolding step select take_snoop process_current process_cxl_s2m_bisnp_packet snoop_answered
    process_ndr process_drs birsp_of
snoop_written h p rest c later request packet i e m w =
    ground (arith, i.initial, i.queued, i.turn, i.answer, i.no_ndr, i.no_drs)

-- Two turns of the loop, a completion from the device, and one more turn.
unfoldable pub exchange_snoop : S2mNdrPacket → HomeAgent → Result HomeAgent
exchange_snoop n h =
    step h >>= step >>= process_downstream_target_to_host_packet (s2m_ndr_packet n) >>= step

completed :
    (h : HomeAgent) (p : S2mBisnpPacket) (rest : List S2mBisnpPacket) (c : CacheResponse)
    (later : List CacheResponse) (request : CacheRequest) (packet : M2sPacket) (n : S2mNdrPacket)
    → IsReady h p rest c later
    → n.opcode ≡ cmp
    → (process_downstream_target_to_host_packet
          (s2m_ndr_packet n)
          (written h p rest c later request packet)
        >>= step)
      ≡ ok (record (asked h p rest later request) {
        cur_state = record (h.cur_state) {
          state = coh_state_init;
          packet = snoop_packet p;
          cache_rsp = birsp_of c.status;
          birsp_sched = false;
        };
        host_to_target =
            (h.host_to_target ++ packet ∷ [])
            ++ create_birsp (birsp_of c.status) p.bi_id p.bi_tag ∷ [];
      })
unfolding step process_current process_cxl_s2m_bisnp_packet process_ndr process_drs
    process_downstream_target_to_host_packet process_cxl_s2m_rsp_packet complete
completed h p rest c later request packet n i e = ground (arith, i.no_ndr, i.no_drs)

-- A hit: the cache is asked once, its line is written to the device, and only when the device has
-- completed the write does it get the response, S if the cache keeps a shared line and I otherwise,
-- with the tags of the snoop; then the agent is in INIT again, with no response scheduled.
pub exchange_snoop_lem :
    (h : HomeAgent) (p : S2mBisnpPacket) (rest : List S2mBisnpPacket) (c : CacheResponse)
    (later : List CacheResponse) (request : CacheRequest) (packet : M2sPacket) (n : S2mNdrPacket)
    → IsReady h p rest c later
    → snoop_request p ≡ ok request
    → c.status ≢ rsp_miss
    → create_mem_wr (get_address p.addr) c.value mem_wr meta0_state meta_invalid snp_type_no_op
      ≡ ok packet
    → n.opcode ≡ cmp
    → exchange_snoop n h
      ≡ ok (record (asked h p rest later request) {
        cur_state = record (h.cur_state) {
          state = coh_state_init;
          packet = snoop_packet p;
          cache_rsp = birsp_of c.status;
          birsp_sched = false;
        };
        host_to_target =
            (h.host_to_target ++ packet ∷ [])
            ++ create_birsp (birsp_of c.status) p.bi_id p.bi_tag ∷ [];
      })
unfolding exchange_snoop
exchange_snoop_lem h p rest c later request packet n i e m w o =
    rw (snoop_written h p rest c later request packet i e m w)
      (completed h p rest c later request packet n i o)

-- ===== src/CacheBridge/Evict.antt =====
-- opencxl/cxl/component/root_complex/cache_coherency_bridge.py: a device that evicts a modified line.
use opencxl_core.Prelude.{
  ℕ, zero, suc, ◌+◌, ◌%◌, ◌<◌, ◌≡◌, ◌&&◌, ◌==◌, if◌then◌else◌, refl, arith, false, [], ◌∷◌, ◌++◌,
  ok, lt→ltb,
}
use opencxl_core.Cache.Agent.{mem_write}
use opencxl_core.CxlCache.{
  D2hReqPacket, D2hDataPacket, d2h_data_packet, cache_dirty_evict, d2h_req_address, h2d_rsp_packet,
  create_h2d_rsp, go_write_pull,
}
use opencxl_core.HomeAgent.{coh_state_init, coh_state_start, coh_state_done}
use opencxl_core.CacheBridge.{
  CacheBridge, device_packet, get_next_uqid, evict_start, evict_done, current_address,
  snoop_filter_update, process_cxl_d2h_req_packet,
}
use opencxl_core.CacheBridge.Loop.{
  process_current, process_rsp, step, steps, process_downstream_target_to_host_packet,
}

-- The bridge when it has called for the data.
abbrev pulled : D2hReqPacket → CacheBridge → CacheBridge
pulled p b = record b {
  state = coh_state_done;
  uqid = (b.uqid + 1) % 4096;
  host_to_target =
      b.host_to_target
      ++ h2d_rsp_packet (create_h2d_rsp p.cache_id go_write_pull b.uqid p.cqid) ∷ [];
}

-- It turns with nothing to do until the data is there.
idle_turns :
    (n : ℕ) (p : D2hReqPacket) (b : CacheBridge)
    → b.state ≡ coh_state_done
    → b.packet ≡ device_packet p
    → p.cache_opcode ≡ cache_dirty_evict
    → b.d2h_rsp ≡ []
    → b.d2h_data ≡ []
    → steps n b ≡ ok b
unfolding steps step process_current process_rsp process_cxl_d2h_req_packet evict_done
idle_turns zero p b s q o r e = refl
idle_turns (suc n) p b s q o r e = ground (arith, idle_turns n p b s q o r e)

-- The bridge when the data has gone to the memory.
abbrev written : D2hReqPacket → D2hDataPacket → CacheBridge → CacheBridge
written p d b = record (pulled p b) {
  d2h_data = [];
  memory_requests =
      b.memory_requests
      ++ record { type = mem_write; addr = d2h_req_address p; size = 64; value = d.value } ∷ [];
  state = coh_state_init;
  sf_device =
      λ id a. if (id == p.cache_id) && (a == d2h_req_address p) then false else b.sf_device id a;
}

pull :
    (p : D2hReqPacket) (b : CacheBridge)
    → b.state ≡ coh_state_start
    → b.packet ≡ device_packet p
    → p.cache_opcode ≡ cache_dirty_evict
    → b.d2h_rsp ≡ []
    → step b ≡ ok (pulled p b)
unfolding step process_current process_rsp process_cxl_d2h_req_packet evict_start get_next_uqid
pull p b s q o r = ground arith

write :
    (p : D2hReqPacket) (b : CacheBridge) (d : D2hDataPacket)
    → b.packet ≡ device_packet p
    → p.cache_opcode ≡ cache_dirty_evict
    → p.cache_id < b.num_cache_devices
    → b.d2h_rsp ≡ []
    → step (record (pulled p b) { d2h_data = d ∷ [] }) ≡ ok (written p d b)
unfolding step process_current process_rsp process_cxl_d2h_req_packet evict_done current_address
    snoop_filter_update
write p b d q o lt r = ground (arith, lt→ltb p.cache_id b.num_cache_devices lt)

-- A device's eviction of a modified line, with no response waiting: the first turn sends the device the
-- call for the line's data, with its tag, and any number of turns without the data change nothing more.
-- When the data has come, a turn sends the memory a write of it to the line's address, takes the line
-- out of the filter for that device, leaves every other entry, and ends the request.
pub evict-written :
    (n : ℕ) (p : D2hReqPacket) (b : CacheBridge) (d : D2hDataPacket)
    → b.state ≡ coh_state_start
    → b.packet ≡ device_packet p
    → p.cache_opcode ≡ cache_dirty_evict
    → p.cache_id < b.num_cache_devices
    → b.d2h_rsp ≡ []
    → b.d2h_data ≡ []
    → (u v w : CacheBridge) × (steps (suc n) b ≡ ok u)
      × (u.host_to_target
          ≡ b.host_to_target
            ++ h2d_rsp_packet (create_h2d_rsp p.cache_id go_write_pull b.uqid p.cqid) ∷ [])
      × (process_downstream_target_to_host_packet (d2h_data_packet d) u ≡ ok v)
      × (step v ≡ ok w)
      × (w.memory_requests
          ≡ b.memory_requests
            ++ record { type = mem_write; addr = d2h_req_address p; size = 64; value = d.value }
              ∷ [])
      × (w.host_to_target ≡ u.host_to_target)
      × (w.sf_device p.cache_id (d2h_req_address p) ≡ false)
      × ((i a : ℕ)
          → ¬ ((i ≡ p.cache_id) × (a ≡ d2h_req_address p))
          → w.sf_device i a ≡ b.sf_device i a)
      × (w.state ≡ coh_state_init)
unfolding steps process_downstream_target_to_host_packet
evict-written n p b d s q o lt r e = (
  pulled p b,
  record (pulled p b) { d2h_data = d ∷ [] },
  written p d b,
  ground (arith, pull p b s q o r, idle_turns n p (pulled p b) refl q o r e),
  refl,
  ground arith,
  write p b d q o lt r,
  refl,
  refl,
  ground arith,
  λ i a other. ground arith,
  refl,
)

-- ===== src/CacheBridge/Forward.antt =====
-- The two ends of CXL.cache: opencxl/cxl/component/root_complex/cache_coherency_bridge.py with the engine of
-- the device that has a line (opencxl/cxl/component/cxl_cache_dcoh.py). The answer of the device's cache is what
-- waits in the engine's fifo.
use opencxl_core.Prelude.{
  ℕ, ◌^◌, ◌<◌, ◌≡◌, refl, arith, true, List, [], ◌∷◌, ◌++◌, some, ok, Result, ◌>>=◌,
}
use opencxl_core.Cache.Fifo.{CacheResponse, rsp_s}
use opencxl_core.CxlCache.{
  D2hReqPacket, D2hPacket, cache_rd_shared, rsp_s_fwd_m, h2d_snp_data, create_d2h_rsp,
  d2h_req_address, h2d_req_packet,
}
use opencxl_core.HomeAgent.{coh_state_init, coh_state_start, coh_state_done}
use opencxl_core.CacheDcoh.{CacheDcoh, cache_request, process_host_to_target}
use opencxl_core.CacheDcoh
use opencxl_core.CacheDcoh.Snoop.{reply, IsIdle, answered}
use opencxl_core.CacheDcoh.Snoop
use opencxl_core.CacheBridge.{CacheBridge, device_packet, snoop_filter_find_cache_list}
use opencxl_core.CacheBridge.Loop.{step, steps, process_downstream_target_to_host_packet}
use opencxl_core.CacheBridge.Shared.{
  grant, shared, data_snoop, snooping, snoop_turn, forward_turn, share_turn,
}

-- The packets of a device arrive, one after another.
unfoldable pub deliver : List D2hPacket → CacheBridge → Result CacheBridge
deliver [] b = ok b
deliver (p ∷ ps) b = process_downstream_target_to_host_packet p b >>= deliver ps

-- The bridge when the packets of the device have come, when they are processed, and the device's engine.
abbrev delivered : D2hReqPacket → ℕ → ℕ → CacheBridge → CacheBridge
delivered p id value b = record (snooping p id b) {
  d2h_rsp = create_d2h_rsp 0 rsp_s_fwd_m ∷ [];
  d2h_data = record { uqid = 0; value = value } ∷ [];
}

abbrev forwarded : D2hReqPacket → ℕ → ℕ → CacheBridge → CacheBridge
forwarded p id value b = record (delivered p id value b) {
  d2h_rsp = [];
  cache_rsp = rsp_s;
  cache_list = [];
  state = coh_state_done;
}

delivered_lem :
    (p : D2hReqPacket) (id value : ℕ) (b : CacheBridge)
    → b.d2h_rsp ≡ []
    → b.d2h_data ≡ []
    → deliver (reply h2d_snp_data rsp_s value) (snooping p id b) ≡ ok (delivered p id value b)
unfolding deliver process_downstream_target_to_host_packet
delivered_lem p id value b r e = ground arith

granted_lem :
    (p : D2hReqPacket) (id value : ℕ) (b : CacheBridge)
    → b.packet ≡ device_packet p
    → p.cache_opcode ≡ cache_rd_shared
    → p.cache_id < b.num_cache_devices
    → value < 2 ^ 512
    → steps 2 (delivered p id value b)
      ≡ ok (shared p value (record (forwarded p id value b) { d2h_data = [] }))
unfolding steps
granted_lem p id value b q o lt small = ground (
  arith,
  forward_turn p (delivered p id value b) (create_d2h_rsp 0 rsp_s_fwd_m) id refl q o refl refl refl,
  share_turn p (forwarded p id value b) (record { uqid = 0; value = value }) refl q o refl lt small
      refl refl,
)

-- A device asks to share a line that the filter has for one other device; that device's engine is idle, with
-- no other packet of the host, and the answer with the line waits for it from its cache, with the status of
-- a shared line; nothing else waits for the bridge. The bridge then sends that device one snoop; the
-- snoop, processed by the device's engine, gives packets with which two turns of the bridge grant the
-- first device the shared state and send it that line, put it into the filter, and end the request.
pub shared-forwarded :
    (p : D2hReqPacket) (b : CacheBridge) (id value : ℕ) (d : CacheDcoh)
    → b.state ≡ coh_state_start
    → b.packet ≡ device_packet p
    → p.cache_opcode ≡ cache_rd_shared
    → p.cache_id < b.num_cache_devices
    → b.d2h_rsp ≡ []
    → b.d2h_data ≡ []
    → snoop_filter_find_cache_list (d2h_req_address p) (some p.cache_id) b ≡ id ∷ []
    → value < 2 ^ 512
    → IsIdle d
    → d.h2d_req ≡ []
    → d.snoop_responses ≡ record { status = rsp_s; value = value } ∷ []
    → (u v w : CacheBridge) × (e f : CacheDcoh) × (replies : List D2hPacket) × (step b ≡ ok u)
      × (u.host_to_target ≡ b.host_to_target ++ h2d_req_packet (data_snoop p id) ∷ [])
      × (process_host_to_target (h2d_req_packet (data_snoop p id)) d ≡ ok e)
      × (CacheDcoh.step e ≡ ok f)
      × (f.target_to_host ≡ d.target_to_host ++ replies)
      × (deliver replies u ≡ ok v)
      × (steps 2 v ≡ ok w)
      × (w.host_to_target ≡ u.host_to_target ++ grant p value)
      × (w.sf_device p.cache_id (d2h_req_address p) ≡ true)
      × (w.state ≡ coh_state_init)
unfolding process_host_to_target
shared-forwarded p b id value d s q o lt r no_data l small idle dh answer =
    let snoop = data_snoop p id in
    let held : CacheResponse = record { status = rsp_s; value = value } in
    let e : CacheDcoh = record d { h2d_req = snoop ∷ [] } in
    let waits : IsIdle e = record {
      state_init = idle.state_init;
      no_request = idle.no_request;
      endpoint = idle.endpoint;
    } in
    (
      snooping p id b,
      delivered p id value b,
      shared p value (record (forwarded p id value b) { d2h_data = [] }),
      e,
      answered snoop held [] [] e,
      reply h2d_snp_data rsp_s value,
      snoop_turn p b s q o lt r id l,
      refl,
      ground arith,
      Snoop.snoop_turn e snoop [] held [] waits refl answer tt small,
      refl,
      delivered_lem p id value b r no_data,
      granted_lem p id value b q o lt small,
      refl,
      ground arith,
      refl,
    )

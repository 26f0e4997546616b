-- ===== src/CacheBridge/Unsupported.antt =====
-- opencxl/cxl/component/root_complex/cache_coherency_bridge.py: a request of a device with an opcode that the bridge
-- does not know.
use mathlib.Core.List.{append-nil, append_assoc}
use opencxl_core.Prelude.{Option, subst, ◌≡◌, ◌≢◌, refl, sym, ◌∙◌, arith, List, [], ◌∷◌, ◌++◌, ok}
use opencxl_core.Cache.Fifo.{CacheRequest, CacheResponse}
use opencxl_core.Cache.Agent.{MemoryResponse}
use opencxl_core.CxlCache.{
  D2hReqPacket, D2hRspPacket, D2hPacket, d2h_req_packet, d2h_rsp_packet, d2h_data_packet,
  d2h_other_packet, cache_rd_own_no_data, cache_rd_shared, cache_dirty_evict,
}
use opencxl_core.HomeAgent.{coh_state_init, coh_state_start}
use opencxl_core.CacheBridge.{
  CacheBridge, device_packet, process_cxl_d2h_req_packet, process_cxl_d2h_rsp_packet,
  current_address, snoop_filter_update,
}
use opencxl_core.CacheBridge.Loop.{
  process_current, process_rsp, step, process_downstream_target_to_host_packet, Step, turn, asked,
  answered, fetched, arrived, Run, here, next,
}

-- `u` still has the current request of `b`, has put nothing since, and has taken no request, of a device or of the
-- host.
pub record IsStuck (b u : CacheBridge) : Type 0 where
  pub current : u.packet ≡ b.packet
  pub busy : u.state ≢ coh_state_init
  pub to_devices : u.host_to_target ≡ b.host_to_target
  pub to_host : u.cache_responses ≡ b.cache_responses
  pub to_cache : u.snoop_requests ≡ b.snoop_requests
  pub to_memory : u.memory_requests ≡ b.memory_requests
  pub device_waits : (more : List D2hReqPacket) × (u.d2h_req ≡ b.d2h_req ++ more)
  pub host_waits :
      (more : List (Option CacheRequest)) × (u.cache_requests ≡ b.cache_requests ++ more)

IsStuck-trans : (a b c : CacheBridge) → IsStuck a b → IsStuck b c → IsStuck a c
IsStuck-trans a b c s t =
    let (more, e) = s.device_waits in
    let (more', e') = t.device_waits in
    let (asks, f) = s.host_waits in
    let (asks', f') = t.host_waits in
    record {
      current = t.current ∙ s.current;
      busy = t.busy;
      to_devices = t.to_devices ∙ s.to_devices;
      to_host = t.to_host ∙ s.to_host;
      to_cache = t.to_cache ∙ s.to_cache;
      to_memory = t.to_memory ∙ s.to_memory;
      device_waits = (more ++ more', ground (arith, e, e', append_assoc a.d2h_req more more'));
      host_waits = (asks ++ asks', ground (arith, f, f', append_assoc a.cache_requests asks asks'));
    }

-- The same but for what has come in.
module _ (b : CacheBridge) (busy : b.state ≢ coh_state_init) where
  abbrev none_more : (more : List D2hReqPacket) × (b.d2h_req ≡ b.d2h_req ++ more)
  none_more = ([], sym (append-nil b.d2h_req))

  abbrev none_asks :
      (more : List (Option CacheRequest)) × (b.cache_requests ≡ b.cache_requests ++ more)
  none_asks = ([], sym (append-nil b.cache_requests))

  unchanged : IsStuck b b
  unchanged = record {
    current = refl;
    busy = busy;
    to_devices = refl;
    to_host = refl;
    to_cache = refl;
    to_memory = refl;
    device_waits = none_more;
    host_waits = none_asks;
  }

  -- A response changes the list, the filter and the state at most.
  rsp-IsStuck :
      (p : D2hRspPacket) (b' : CacheBridge) → process_cxl_d2h_rsp_packet p b ≡ ok b' → IsStuck b b'
  unfolding process_cxl_d2h_rsp_packet snoop_filter_update current_address
  rsp-IsStuck p b' e = record {
    current = ground arith;
    busy = ground arith;
    to_devices = ground arith;
    to_host = ground arith;
    to_cache = ground arith;
    to_memory = ground arith;
    device_waits = ([], ground (arith, append-nil b.d2h_req));
    host_waits = ([], ground (arith, append-nil b.cache_requests));
  }

  arrived_req :
      (p : D2hPacket) (b' : CacheBridge)
      → process_downstream_target_to_host_packet p b ≡ ok b'
      → (more : List D2hReqPacket) × (b'.d2h_req ≡ b.d2h_req ++ more)
  unfolding process_downstream_target_to_host_packet
  arrived_req (d2h_req_packet p) b' e = (p ∷ [], ground arith)
  arrived_req (d2h_rsp_packet p) b' e = ([], ground (arith, append-nil b.d2h_req))
  arrived_req (d2h_data_packet p) b' e = ([], ground (arith, append-nil b.d2h_req))
  arrived_req d2h_other_packet b' e = absurd (ground arith)

  arrived-IsStuck :
      (p : D2hPacket) (b' : CacheBridge)
      → process_downstream_target_to_host_packet p b ≡ ok b'
      → IsStuck b b'
  unfolding process_downstream_target_to_host_packet
  arrived-IsStuck p b' e = record {
    current = ground arith;
    busy = ground arith;
    to_devices = ground arith;
    to_host = ground arith;
    to_cache = ground arith;
    to_memory = ground arith;
    device_waits = arrived_req p b' e;
    host_waits = ([], ground (arith, append-nil b.cache_requests));
  }

step-IsStuck :
    (p : D2hReqPacket) (b b' : CacheBridge)
    → b.state ≢ coh_state_init
    → b.packet ≡ device_packet p
    → p.cache_opcode ≢ cache_rd_own_no_data
    → p.cache_opcode ≢ cache_rd_shared
    → p.cache_opcode ≢ cache_dirty_evict
    → step b ≡ ok b'
    → IsStuck b b'
unfolding step process_current process_rsp process_cxl_d2h_req_packet
step-IsStuck p b b' busy q x y z e = go b.d2h_rsp refl
  where
    processed : process_rsp b ≡ ok b'
    processed = ground arith

    go : (l : List D2hRspPacket) → b.d2h_rsp ≡ l → IsStuck b b'
    go [] none_waits =
        let same : b ≡ b' = ground arith in subst (λ u. IsStuck b u) same (unchanged b busy)
    go (r ∷ rest) waits =
        let u : CacheBridge = record b { d2h_rsp = rest } in
        let first : IsStuck b u = record {
          current = refl;
          busy = busy;
          to_devices = refl;
          to_host = refl;
          to_cache = refl;
          to_memory = refl;
          device_waits = none_more b busy;
          host_waits = none_asks b busy;
        } in
        IsStuck-trans b u b' first (rsp-IsStuck u busy r b' (ground arith))

-- What is put into the bridge's queues leaves the rest.
put-IsStuck :
    (b b' : CacheBridge) (more : List (Option CacheRequest)) (answers : List CacheResponse)
    (lines : List MemoryResponse)
    → b.state ≢ coh_state_init
    → b' ≡ record b {
      cache_requests = b.cache_requests ++ more;
      snoop_responses = answers;
      memory_responses = lines;
    }
    → IsStuck b b'
put-IsStuck b b' more answers lines busy e =
    let u : CacheBridge = record b {
      cache_requests = b.cache_requests ++ more;
      snoop_responses = answers;
      memory_responses = lines;
    } in
    let s : IsStuck b u = record {
      current = refl;
      busy = busy;
      to_devices = refl;
      to_host = refl;
      to_cache = refl;
      to_memory = refl;
      device_waits = none_more b busy;
      host_waits = (more, refl);
    } in
    subst (λ v. IsStuck b v) (sym e) s

-- A request of a device with an opcode other than CACHE_RD_OWN_NO_DATA, CACHE_RD_SHARED and CACHE_DIRTY_EVICT
-- that the bridge has taken: whatever then happens, in any order, it stays the current request; the bridge
-- puts nothing for a device, the host, its cache or its memory, and takes no request of a device or of
-- the host any more.
pub Run-IsStuck :
    (p : D2hReqPacket) (b u : CacheBridge)
    → b.state ≡ coh_state_start
    → b.packet ≡ device_packet p
    → p.cache_opcode ≢ cache_rd_own_no_data
    → p.cache_opcode ≢ cache_rd_shared
    → p.cache_opcode ≢ cache_dirty_evict
    → Run b u
    → IsStuck b u
Run-IsStuck p b u s q x y z here = unchanged b (λ e. ground arith)
Run-IsStuck p b u s q x y z (next {u = v} r st) =
    let before = Run-IsStuck p b v s q x y z r in IsStuck-trans b v u before (go v u before st)
  where
    go : (v u : CacheBridge) → IsStuck b v → Step v u → IsStuck v u
    go v u before (turn running e) = step-IsStuck p v u before.busy (before.current ∙ q) x y z e
    go v u before (asked r e) =
        put-IsStuck v u (r ∷ []) v.snoop_responses v.memory_responses before.busy e
    go v u before (answered r e) =
        put-IsStuck v u [] (v.snoop_responses ++ r ∷ []) v.memory_responses before.busy
          (ground (arith, append-nil v.cache_requests))
    go v u before (fetched r e) =
        put-IsStuck v u [] v.snoop_responses (v.memory_responses ++ r ∷ []) before.busy
          (ground (arith, append-nil v.cache_requests))
    go v u before (arrived r e) = arrived-IsStuck v before.busy r u e

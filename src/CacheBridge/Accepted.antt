-- ===== src/CacheBridge/Accepted.antt =====
-- opencxl/cxl/component/root_complex/cache_coherency_bridge.py: what the neighbours of the bridge do keeps it
-- well-formed, and a response that it waits for is processed.
use opencxl_core.Prelude.{
  ℕ, ◌≡◌, ◌≢◌, inl, inr, refl, subst, arith, List, [], ◌∷◌, ◌++◌, sym, Option, ok, Result-cases,
  lt→ltb,
}
use opencxl_core.Cache.Fifo.{CacheRequest, CacheResponse}
use opencxl_core.Cache.Agent.{MemoryResponse}
use opencxl_core.CxlCache.{
  D2hPacket, D2hDataPacket, d2h_req_packet, d2h_rsp_packet, d2h_data_packet, d2h_other_packet,
  D2hReqPacket, D2hRspPacket,
}
use opencxl_core.HomeAgent.{coh_state_wait}
use opencxl_core.CacheBridge.{
  CacheBridge, device_packet, new_cache_bridge, set_cache_coh_dev_count, pop, current_address,
  snoop_filter_update, process_cxl_d2h_rsp_packet,
}
use opencxl_core.CacheBridge.Loop.{
  process_downstream_target_to_host_packet, Step, turn, asked, answered, fetched, arrived, Run,
  here, next,
}
use opencxl_core.CacheBridge.Filter.{has, has-popped}
use opencxl_core.CacheBridge.Invariant.{IsRanged}
use opencxl_core.CacheBridge.Reachable.{IsWellFormed, step-IsWellFormed}

-- What waits in the queues is no part of it.
queued :
    (b : CacheBridge) (cs : List (Option CacheRequest)) (rs : List CacheResponse)
    (ms : List MemoryResponse) (qs : List D2hReqPacket) (rs' : List D2hRspPacket)
    (ds : List D2hDataPacket)
    → IsWellFormed b
    → IsWellFormed (record b {
      cache_requests = cs;
      snoop_responses = rs;
      memory_responses = ms;
      d2h_req = qs;
      d2h_rsp = rs';
      d2h_data = ds;
    })
queued b cs rs ms qs rs' ds wf = record {
  ranged = record {
    in_range = wf.ranged.in_range;
    known = wf.ranged.known;
    uqid-lt = wf.ranged.uqid-lt;
  };
  waits = wf.waits;
  current = wf.current;
}

arrived-IsWellFormed :
    (p : D2hPacket) (b : CacheBridge) {b' : CacheBridge}
    → IsWellFormed b
    → process_downstream_target_to_host_packet p b ≡ ok b'
    → IsWellFormed b'
unfolding process_downstream_target_to_host_packet
arrived-IsWellFormed (d2h_req_packet p) b {b'} wf h =
    let e : record b { d2h_req = b.d2h_req ++ p ∷ [] } ≡ b' = ground arith in
    subst IsWellFormed e (
      queued b b.cache_requests b.snoop_responses b.memory_responses (b.d2h_req ++ p ∷ []) b.d2h_rsp
        b.d2h_data wf)
arrived-IsWellFormed (d2h_rsp_packet p) b {b'} wf h =
    let e : record b { d2h_rsp = b.d2h_rsp ++ p ∷ [] } ≡ b' = ground arith in
    subst IsWellFormed e (
      queued b b.cache_requests b.snoop_responses b.memory_responses b.d2h_req (b.d2h_rsp ++ p ∷ [])
        b.d2h_data wf)
arrived-IsWellFormed (d2h_data_packet p) b {b'} wf h =
    let e : record b { d2h_data = b.d2h_data ++ p ∷ [] } ≡ b' = ground arith in
    subst IsWellFormed e (
      queued b b.cache_requests b.snoop_responses b.memory_responses b.d2h_req b.d2h_rsp
        (b.d2h_data ++ p ∷ []) wf)
arrived-IsWellFormed d2h_other_packet b wf h = absurd (ground arith)

Step-IsWellFormed : {b b' : CacheBridge} → Step b b' → IsWellFormed b → IsWellFormed b'
Step-IsWellFormed {b} (turn running h) wf = step-IsWellFormed b wf h
Step-IsWellFormed {b} (asked r e) wf = subst IsWellFormed (sym e) (
    queued b (b.cache_requests ++ r ∷ []) b.snoop_responses b.memory_responses b.d2h_req b.d2h_rsp
      b.d2h_data wf)
Step-IsWellFormed {b} (answered r e) wf = subst IsWellFormed (sym e) (
    queued b b.cache_requests (b.snoop_responses ++ r ∷ []) b.memory_responses b.d2h_req b.d2h_rsp
      b.d2h_data wf)
Step-IsWellFormed {b} (fetched r e) wf = subst IsWellFormed (sym e) (
    queued b b.cache_requests b.snoop_responses (b.memory_responses ++ r ∷ []) b.d2h_req b.d2h_rsp
      b.d2h_data wf)
Step-IsWellFormed {b} (arrived p h) wf = arrived-IsWellFormed p b wf h

Run-IsWellFormed : {b b' : CacheBridge} → Run b b' → IsWellFormed b → IsWellFormed b'
Run-IsWellFormed here wf = wf
Run-IsWellFormed (next run s) wf = Step-IsWellFormed s (Run-IsWellFormed run wf)

-- A new bridge, with any number of devices.
abbrev pub new_bridge : ℕ → CacheBridge
new_bridge count = set_cache_coh_dev_count count new_cache_bridge

new_bridge-IsWellFormed : (count : ℕ) → IsWellFormed (new_bridge count)
unfolding has
new_bridge-IsWellFormed count = record {
  ranged = record {
    in_range = λ i q. ground arith;
    known = λ i a q. ground arith;
    uqid-lt = omega arith;
  };
  waits = λ w. ground arith;
  current = λ w. absurd (ground arith);
}

-- Whatever a new bridge has done among its neighbours, any number of turns, requests, answers and packets
-- in any order: its list of devices to wait for and its snoop filter name only devices that there are, the
-- next UQID has 12 bits, and where it waits for devices, it does so for the request of a device, with a list
-- that is not empty.
pub Run-new_bridge : (count : ℕ) (b : CacheBridge) → Run (new_bridge count) b → IsWellFormed b
Run-new_bridge count b run = Run-IsWellFormed run (new_bridge-IsWellFormed count)

accept :
    (b : CacheBridge) (r : D2hRspPacket) (p : D2hReqPacket) (l : List ℕ)
    → b.cache_list ≡ l
    → b.cache_list ≢ []
    → b.packet ≡ device_packet p
    → IsRanged b
    → (b' : CacheBridge) × (process_cxl_d2h_rsp_packet r b ≡ ok b')
unfolding process_cxl_d2h_rsp_packet current_address snoop_filter_update
accept b r p [] e some_left q ranged = absurd (some_left e)
accept b r p (i ∷ is) e some_left q ranged =
    let last =
      lt→ltb (pop i is).1 b.num_cache_devices
        (ranged.in_range (pop i is).1 (rw e (has-popped i is))) in
    elim (Result-cases (process_cxl_d2h_rsp_packet r b)) [
      | inl found ↦ found
      | inr (x, h) ↦ absurd (ground arith)
    ]

-- Where a bridge that has done so waits for devices, it processes any response of a device without an
-- exception: there is a device to take off the list, and an entry of the filter to drop.
pub response-accepted :
    (count : ℕ) (b : CacheBridge) (r : D2hRspPacket)
    → Run (new_bridge count) b
    → b.state ≡ coh_state_wait
    → (b' : CacheBridge) × (process_cxl_d2h_rsp_packet r b ≡ ok b')
response-accepted count b r run w =
    let wf = Run-new_bridge count b run in
    let (p, q) = wf.current w in accept b r p b.cache_list refl (wf.waits w) q wf.ranged

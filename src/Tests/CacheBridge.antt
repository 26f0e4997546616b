-- ===== src/Tests/CacheBridge.antt =====
-- opencxl/cxl/component/root_complex/cache_coherency_bridge.py and opencxl/cxl/component/cxl_cache_dcoh.py at
-- concrete states: three devices, of which device 1 has the line at 64.
use opencxl_core.Prelude.{
  ℕ, ◌<◌, ◌≡◌, ◌≢◌, ◌↔◌, ◌&&◌, ◌==◌, if◌then◌else◌, refl, inr, arith, false, true, List, [], ◌∷◌,
  ◌++◌, map, some, ok, err, unbound_local,
}
use opencxl_core.Cache.Fifo.{CacheResponse, rsp_i, rsp_s, rsp_miss, snp_inv, snp_data}
use opencxl_core.Cache.Agent.{MemoryResponse, mem_write}
use opencxl_core.CxlMem.{addr_field, get_address}
use opencxl_core.CxlCache.{
  create_h2d_req, d2h_req_packet, D2hPacket, D2hReqPacket, D2hRspPacket, D2hDataPacket,
  H2dReqPacket, cache_rd_own_no_data, cache_rd_shared, cache_rd_curr, cache_dirty_evict,
  rsp_i_hit_se, d2h_req_address, h2d_req_packet, h2d_rsp_packet, d2h_data_packet, create_h2d_rsp,
  go, go_write_pull, state_exclusive, h2d_snp_data, h2d_snp_inv, h2d_snp_cur,
}
use opencxl_core.HomeAgent.{coh_state_init, coh_state_start, coh_state_wait}
use opencxl_core.CacheBridge.{
  CacheBridge, device_packet, snoop_filter_find_cache_list, process_cxl_d2h_rsp_packet,
  process_cxl_d2h_req_packet, own_start, own_done, holders, snoop_invalidate_caches, snoop_host,
  snoop_filter_update,
}
use opencxl_core.CacheBridge.Loop.{
  step, steps, process_downstream_target_to_host_packet, Run, here, next, arrived, turn, select,
  take_device, process_current, process_rsp,
}
use opencxl_core.CacheBridge.Loop
use opencxl_core.CacheBridge.Filter.{invalidation}
use opencxl_core.CacheBridge.Exclusive.{own-exclusive}
use opencxl_core.CacheBridge.Evict.{evict-written}
use opencxl_core.CacheBridge.Unsupported.{IsStuck, Run-IsStuck}
use opencxl_core.CacheBridge.Shared.{grant, data_snoop, shared-host, line_value, reads}
use opencxl_core.CacheBridge.Forward.{deliver, shared-forwarded}
use opencxl_core.CacheBridge.Reachable.{IsWellFormed}
use opencxl_core.CacheBridge.Accepted.{new_bridge, Run-new_bridge, response-accepted}
use opencxl_core.CacheDcoh.{
  CacheDcoh, new_cache_dcoh, cache_request, snoop_answer, process_host_to_target,
}
use opencxl_core.CacheDcoh
use opencxl_core.CacheDcoh.Snoop.{Answered, replies, snoops-answered}
use opencxl_core.CacheDcoh.Snoop

abbrev request : D2hReqPacket
request = record { cache_opcode = cache_rd_own_no_data; cqid = 5; cache_id = 0; addr = 1 }

abbrev sharing : D2hReqPacket
sharing = record request { cache_opcode = cache_rd_shared }

abbrev evicting : D2hReqPacket
evicting = record request { cache_opcode = cache_dirty_evict; cache_id = 1 }

abbrev unknown : D2hReqPacket
unknown = record request { cache_opcode = cache_rd_curr }

abbrev dropped : D2hRspPacket
dropped = record { cache_opcode = rsp_i_hit_se; uqid = 0 }

abbrev clean : CacheResponse
clean = record { status = rsp_i; value = 0 }

abbrev missed : CacheResponse
missed = record { status = rsp_miss; value = 0 }

abbrev fetched : MemoryResponse
fetched = record { value = 77 }

abbrev modified : D2hDataPacket
modified = record { uqid = 0; value = 42 }

-- The bridge with a request to process, and device 1 in its filter.
abbrev bridge : D2hReqPacket → CacheBridge
bridge p = record (new_bridge 3) {
  state = coh_state_start;
  packet = device_packet p;
  sf_device = λ id addr. (id == 1) && (addr == 64);
}

abbrev owning : CacheBridge
owning = record (bridge request) { d2h_rsp = dropped ∷ []; snoop_responses = clean ∷ [] }

own-exclusive_example :
    (b' : CacheBridge) × (steps 2 owning ≡ ok b')
    × (b'.state ≡ coh_state_init)
    × (b'.host_to_target
        ≡ []
          ++ map
              (invalidation (d2h_req_address request))
              (snoop_filter_find_cache_list (d2h_req_address request) (some 0) owning)
          ++ h2d_rsp_packet (create_h2d_rsp 0 go state_exclusive 0) ∷ [])
    × (b'.snoop_requests
        ≡ [] ++ record { type = snp_inv; addr = d2h_req_address request; size = 0; value = 0 } ∷ [])
    × ((i : ℕ) → i < 3 → (b'.sf_device i (d2h_req_address request) ≡ true) ↔ (i ≡ 0))
    × ((i a : ℕ) → a ≢ d2h_req_address request → b'.sf_device i a ≡ owning.sf_device i a)
unfolding snoop_filter_find_cache_list d2h_req_address
own-exclusive_example =
    own-exclusive request owning (dropped ∷ []) clean [] refl refl refl (omega arith) refl refl
      (inr refl, tt) refl

evict-written_example :
    (u v w : CacheBridge) × (steps 4 (bridge evicting) ≡ ok u)
    × (u.host_to_target ≡ [] ++ h2d_rsp_packet (create_h2d_rsp 1 go_write_pull 0 5) ∷ [])
    × (process_downstream_target_to_host_packet (d2h_data_packet modified) u ≡ ok v)
    × (step v ≡ ok w)
    × (w.memory_requests
        ≡ []
          ++ record { type = mem_write; addr = d2h_req_address evicting; size = 64; value = 42 }
            ∷ [])
    × (w.host_to_target ≡ u.host_to_target)
    × (w.sf_device 1 (d2h_req_address evicting) ≡ false)
    × ((i a : ℕ)
        → ¬ ((i ≡ 1) × (a ≡ d2h_req_address evicting))
        → w.sf_device i a ≡ (bridge evicting).sf_device i a)
    × (w.state ≡ coh_state_init)
evict-written_example =
    evict-written 3 evicting (bridge evicting) modified refl refl refl (omega arith) refl refl

-- A second device asks for the line meanwhile.
abbrev meanwhile : CacheBridge
meanwhile = record (bridge unknown) { d2h_req = request ∷ [] }

meanwhile-Run : Run (bridge unknown) meanwhile
unfolding step process_downstream_target_to_host_packet process_current process_rsp
    process_cxl_d2h_req_packet
meanwhile-Run =
    next (next (next here (turn refl refl)) (arrived (d2h_req_packet request) refl))
      (turn refl refl)

Run-IsStuck_example : IsStuck (bridge unknown) meanwhile
Run-IsStuck_example =
    Run-IsStuck unknown (bridge unknown) meanwhile refl refl (λ e. cc) (λ e. cc) (λ e. cc)
      meanwhile-Run

-- Device 1 has the line itself, and no other device.
abbrev alone : CacheBridge
alone = record (bridge (record sharing { cache_id = 1 })) {
  snoop_responses = missed ∷ [];
  memory_responses = fetched ∷ [];
}

shared-host_example :
    (b' : CacheBridge) × (step alone ≡ ok b')
    × (b'.host_to_target
        ≡ [] ++ grant (record sharing { cache_id = 1 }) (line_value missed fetched))
    × (b'.snoop_requests
        ≡ []
          ++ record { type = snp_data; addr = d2h_req_address sharing; size = 0; value = 0 } ∷ [])
    × (b'.memory_requests ≡ [] ++ reads missed (d2h_req_address sharing))
    × (b'.sf_device 1 (d2h_req_address sharing) ≡ true)
    × ((i a : ℕ)
        → ¬ ((i ≡ 1) × (a ≡ d2h_req_address sharing))
        → b'.sf_device i a ≡ alone.sf_device i a)
    × (b'.state ≡ coh_state_init)
unfolding snoop_filter_find_cache_list d2h_req_address
shared-host_example =
    shared-host (record sharing { cache_id = 1 }) alone missed [] fetched [] refl refl refl
      (omega arith) refl (λ e. omega arith) refl refl (omega arith)

-- The engine of device 1, for which its cache's answer waits.
abbrev holding : CacheDcoh
holding = record new_cache_dcoh { snoop_responses = record { status = rsp_s; value = 5 } ∷ [] }

shared-forwarded_example :
    (u v w : CacheBridge) × (e f : CacheDcoh) × (replies : List D2hPacket) × (step (bridge sharing)
      ≡ ok u)
    × (u.host_to_target ≡ [] ++ h2d_req_packet (data_snoop sharing 1) ∷ [])
    × (process_host_to_target (h2d_req_packet (data_snoop sharing 1)) holding ≡ ok e)
    × (CacheDcoh.step e ≡ ok f)
    × (f.target_to_host ≡ [] ++ replies)
    × (deliver replies u ≡ ok v)
    × (steps 2 v ≡ ok w)
    × (w.host_to_target ≡ u.host_to_target ++ grant sharing 5)
    × (w.sf_device 0 (d2h_req_address sharing) ≡ true)
    × (w.state ≡ coh_state_init)
unfolding snoop_filter_find_cache_list d2h_req_address
shared-forwarded_example =
    shared-forwarded sharing (bridge sharing) 1 5 holding refl refl refl (omega arith) refl refl
      refl (omega arith) (record { state_init = refl; no_request = refl; endpoint = refl }) refl
      refl

-- Three snoops, with the answers that wait for them.
abbrev dropping : H2dReqPacket
dropping = record { cache_opcode = h2d_snp_inv; addr = 1; cache_id = 0 }

abbrev reading : H2dReqPacket
reading = record dropping { cache_opcode = h2d_snp_data }

abbrev snoops : List Answered
snoops =
    (reading, record { status = rsp_s; value = 5 }) ∷ (dropping, clean) ∷ (reading, missed) ∷ []

abbrev snooped : CacheDcoh
snooped = record new_cache_dcoh {
  h2d_req = reading ∷ dropping ∷ reading ∷ [];
  snoop_responses = record { status = rsp_s; value = 5 } ∷ clean ∷ missed ∷ [];
}

snoops-answered_example :
    Snoop.steps 3 snooped
    ≡ ok (record snooped {
      h2d_req = [];
      snoop_responses = [];
      snoops = cache_request reading ∷ cache_request dropping ∷ cache_request reading ∷ [];
      target_to_host = replies snoops;
    })
snoops-answered_example =
    snoops-answered snoops snooped
      (record { state_init = refl; no_request = refl; endpoint = refl }) refl refl
      (tt, omega arith, (tt, omega arith, (tt, omega arith, tt)))

-- A device answers a snoop of the current value with the status of a dropped line.
snoop_answer_test : snoop_answer h2d_snp_cur rsp_i ≡ err unbound_local
unfolding snoop_answer
snoop_answer_test = refl

-- Device 1 comes to own the line, then device 0 asks for it, and device 1 is snooped.
abbrev first : D2hReqPacket
first = record request { cache_id = 1 }

abbrev waiting : CacheBridge
waiting = record (new_bridge 3) {
  state = coh_state_wait;
  packet = device_packet request;
  cache_list = 1 ∷ [];
  sf_device = λ id addr. if (id == 1) && (addr == 64) then true else false;
  snoop_requests = record { type = snp_inv; addr = 64; size = 0; value = 0 } ∷ [];
  host_to_target = h2d_rsp_packet (create_h2d_rsp 1 go state_exclusive 0) ∷ invalidation 64 1 ∷ [];
}

waiting-Run : Run (new_bridge 3) waiting
unfolding step process_downstream_target_to_host_packet select take_device process_current
    process_rsp process_cxl_d2h_req_packet own_start own_done snoop_filter_find_cache_list holders
    snoop_invalidate_caches create_h2d_req addr_field get_address d2h_req_address snoop_host
    snoop_filter_update
waiting-Run =
    next
      (next
        (next
          (next
            (next (next (next here (arrived (d2h_req_packet first) refl)) (turn refl refl))
              (Loop.answered clean refl))
            (turn refl refl))
          (arrived (d2h_req_packet request) refl))
        (turn refl refl))
      (turn refl refl)

Run-new_bridge_example : IsWellFormed waiting
Run-new_bridge_example = Run-new_bridge 3 waiting waiting-Run

response-accepted_example :
    (b' : CacheBridge) × (process_cxl_d2h_rsp_packet dropped waiting ≡ ok b')
response-accepted_example = response-accepted 3 waiting dropped waiting-Run refl

-- ===== src/CacheBridge/Shared.antt =====
-- opencxl/cxl/component/root_complex/cache_coherency_bridge.py: a device that asks to share a line, which the
-- host has or one other device.
use mathlib.Core.List.{append-nil, append_assoc}
use opencxl_core.Prelude.{
  ℕ, ◌%◌, ◌^◌, ◌==◌, ◌&&◌, ◌<◌, ◌≡◌, ◌≢◌, refl, ap, arith, true, if◌then◌else◌, List, [], ◌∷◌, ◌++◌,
  some, length, ok, lt→ltb,
}
use opencxl_core.Cache.Fifo.{CacheResponse, snp_data, ok_status, rsp_s, rsp_miss}
use opencxl_core.Cache.Agent.{MemoryRequest, MemoryResponse, mem_read}
use opencxl_core.CxlMem.{addr_field}
use opencxl_core.CxlCache.{
  D2hReqPacket, D2hRspPacket, D2hDataPacket, H2dPacket, H2dReqPacket, cache_rd_shared, rsp_s_fwd_m,
  d2h_req_address, h2d_req_packet, h2d_rsp_packet, h2d_data_packet, h2d_snp_data, go, state_shared,
  d2h_rsp_number, create_h2d_req, create_h2d_rsp, create_h2d_data,
}
use opencxl_core.HomeAgent.{coh_state_init, coh_state_start, coh_state_wait, coh_state_done}
use opencxl_core.CacheBridge.{
  CacheBridge, device_packet, snoop_filter_find_cache_list, snoop_read_latest_data, shared_start,
  shared_done, host_line, snoop_host, sync_memory_read, share, snoop_filter_update, rsp_status, pop,
  process_cxl_d2h_req_packet, process_cxl_d2h_rsp_packet,
}
use opencxl_core.CacheBridge.Loop.{process_current, process_rsp, step}
use opencxl_core.CacheBridge.Filter.{aligned}

-- The two packets that grant a shared line.
abbrev pub grant : D2hReqPacket → ℕ → List H2dPacket
grant p value =
    h2d_rsp_packet (create_h2d_rsp p.cache_id go state_shared 0)
    ∷ h2d_data_packet
        (record { cqid = p.cqid % 2 ^ 12; cache_id = p.cache_id % 2 ^ 4; value = value })
    ∷ []

-- The bridge when a line has been shared.
abbrev pub shared : D2hReqPacket → ℕ → CacheBridge → CacheBridge
shared p value b = record b {
  host_to_target = b.host_to_target ++ grant p value;
  state = coh_state_init;
  sf_device =
      λ id a. if (id == p.cache_id) && (a == d2h_req_address p) then true else b.sf_device id a;
}

pub share_lem :
    (p : D2hReqPacket) (value : ℕ) (b : CacheBridge)
    → p.cache_id < b.num_cache_devices
    → value < 2 ^ 512
    → share p value b ≡ ok (shared p value b)
unfolding share create_h2d_data snoop_filter_update
share_lem p value b lt small = ground (
  arith,
  lt→ltb value (2 ^ 512) small,
  lt→ltb p.cache_id b.num_cache_devices lt,
  append_assoc b.host_to_target (h2d_rsp_packet (create_h2d_rsp p.cache_id go state_shared 0) ∷ [])
      (h2d_data_packet
          (record { cqid = p.cqid % 2 ^ 12; cache_id = p.cache_id % 2 ^ 4; value = value })
        ∷ []),
)

-- The line of the host, and what is asked of the memory for it.
abbrev pub line_value : CacheResponse → MemoryResponse → ℕ
line_value c m = elim c.status [ rsp_miss ↦ m.value | _ ↦ c.value ]

abbrev pub reads : CacheResponse → ℕ → List MemoryRequest
reads c addr = elim c.status [
  | rsp_miss ↦ record { type = mem_read; addr = addr; size = 64; value = 0 } ∷ []
  | _ ↦ []
]

-- The snoop that asks a device for the line.
abbrev pub data_snoop : D2hReqPacket → ℕ → H2dReqPacket
data_snoop p id = record {
  cache_opcode = h2d_snp_data;
  addr = addr_field (d2h_req_address p);
  cache_id = id % 2 ^ 4;
}

-- The bridge when it has asked a device.
abbrev pub snooping : D2hReqPacket → ℕ → CacheBridge → CacheBridge
snooping p id b = record b {
  cache_list = id ∷ [];
  cache_rsp = ok_status;
  host_to_target = b.host_to_target ++ h2d_req_packet (data_snoop p id) ∷ [];
  state = coh_state_wait;
}

module _ (p : D2hReqPacket) (b : CacheBridge) (start : b.state ≡ coh_state_start)
    (current : b.packet ≡ device_packet p) (opcode : p.cache_opcode ≡ cache_rd_shared)
    (known : p.cache_id < b.num_cache_devices) (no_rsp : b.d2h_rsp ≡ []) where
  pub snoop_turn :
      (id : ℕ)
      → snoop_filter_find_cache_list (d2h_req_address p) (some p.cache_id) b ≡ id ∷ []
      → step b ≡ ok (snooping p id b)
  unfolding step process_current process_rsp process_cxl_d2h_req_packet shared_start
      snoop_read_latest_data create_h2d_req
  snoop_turn id e = ground (arith, aligned p)

-- The device forwards the line.
pub forward_turn :
    (p : D2hReqPacket) (b : CacheBridge) (r : D2hRspPacket) (id : ℕ)
    → b.state ≡ coh_state_wait
    → b.packet ≡ device_packet p
    → p.cache_opcode ≡ cache_rd_shared
    → b.d2h_rsp ≡ r ∷ []
    → b.cache_list ≡ id ∷ []
    → r.cache_opcode ≡ rsp_s_fwd_m
    → step b
      ≡ ok (record b { d2h_rsp = []; cache_rsp = rsp_s; cache_list = []; state = coh_state_done })
unfolding step process_current process_rsp process_cxl_d2h_req_packet process_cxl_d2h_rsp_packet
    rsp_status pop d2h_rsp_number
forward_turn p b r id s q o e l f = ground arith

pub share_turn :
    (p : D2hReqPacket) (b : CacheBridge) (d : D2hDataPacket)
    → b.state ≡ coh_state_done
    → b.packet ≡ device_packet p
    → p.cache_opcode ≡ cache_rd_shared
    → b.cache_rsp ≡ rsp_s
    → p.cache_id < b.num_cache_devices
    → d.value < 2 ^ 512
    → b.d2h_rsp ≡ []
    → b.d2h_data ≡ d ∷ []
    → step b ≡ ok (shared p d.value (record b { d2h_data = [] }))
unfolding step process_current process_rsp process_cxl_d2h_req_packet shared_done
share_turn p b d s q o c lt small r e =
    ground (arith, share_lem p d.value (record b { d2h_data = [] }) lt small)

-- The bridge when the line of the host has been fetched, for a list of devices that have it too.
abbrev fetched :
    D2hReqPacket
    → List ℕ
    → CacheResponse
    → List CacheResponse
    → MemoryResponse
    → List MemoryResponse
    → CacheBridge
    → CacheBridge
fetched p list c cs m ms b = record b {
  cache_list = list;
  cache_rsp = ok_status;
  state = coh_state_done;
  snoop_requests =
      b.snoop_requests
      ++ record { type = snp_data; addr = d2h_req_address p; size = 0; value = 0 } ∷ [];
  snoop_responses = cs;
  memory_requests = b.memory_requests ++ reads c (d2h_req_address p);
  memory_responses = elim c.status [ rsp_miss ↦ ms | _ ↦ m ∷ ms ];
}

host_line_lem :
    (p : D2hReqPacket) (list : List ℕ) (c : CacheResponse) (cs : List CacheResponse)
    (m : MemoryResponse) (ms : List MemoryResponse) (b : CacheBridge)
    → b.snoop_responses ≡ c ∷ cs
    → b.memory_responses ≡ m ∷ ms
    → host_line
        (d2h_req_address p)
        (record b { cache_list = list; cache_rsp = ok_status; state = coh_state_done })
      ≡ ok (line_value c m, fetched p list c cs m ms b)
unfolding host_line snoop_host sync_memory_read
host_line_lem p list c cs m ms b e f = ground (arith, append-nil b.memory_requests)

-- A device that asks to share a line which no other device has, or more than one, with no response
-- waiting: in one turn the host's cache is asked, and the memory too when the cache has no such line; the
-- device is granted the state and sent the line, the cache's or else the memory's; the filter has the
-- line for the device, and all else as before; and the request ends.
pub shared-host :
    (p : D2hReqPacket) (b : CacheBridge) (c : CacheResponse) (cs : List CacheResponse)
    (m : MemoryResponse) (ms : List MemoryResponse)
    → b.state ≡ coh_state_start
    → b.packet ≡ device_packet p
    → p.cache_opcode ≡ cache_rd_shared
    → p.cache_id < b.num_cache_devices
    → b.d2h_rsp ≡ []
    → length (snoop_filter_find_cache_list (d2h_req_address p) (some p.cache_id) b) ≢ 1
    → b.snoop_responses ≡ c ∷ cs
    → b.memory_responses ≡ m ∷ ms
    → line_value c m < 2 ^ 512
    → (b' : CacheBridge) × (step b ≡ ok b')
      × (b'.host_to_target ≡ b.host_to_target ++ grant p (line_value c m))
      × (b'.snoop_requests
          ≡ b.snoop_requests
            ++ record { type = snp_data; addr = d2h_req_address p; size = 0; value = 0 } ∷ [])
      × (b'.memory_requests ≡ b.memory_requests ++ reads c (d2h_req_address p))
      × (b'.sf_device p.cache_id (d2h_req_address p) ≡ true)
      × ((i a : ℕ)
          → ¬ ((i ≡ p.cache_id) × (a ≡ d2h_req_address p))
          → b'.sf_device i a ≡ b.sf_device i a)
      × (b'.state ≡ coh_state_init)
unfolding step process_current process_rsp process_cxl_d2h_req_packet shared_start shared_done
shared-host p b c cs m ms s q o lt r l e f small =
    let list = snoop_filter_find_cache_list (d2h_req_address p) (some p.cache_id) b in
    let u = fetched p list c cs m ms b in
    (
      shared p (line_value c m) u,
      go list refl,
      refl,
      refl,
      refl,
      ground arith,
      λ i a other. ground arith,
      refl,
    )
  where
    go :
        (l : List ℕ)
        → snoop_filter_find_cache_list (d2h_req_address p) (some p.cache_id) b ≡ l
        → step b
          ≡ ok (
              shared p (line_value c m) (
                fetched p
                  (snoop_filter_find_cache_list (d2h_req_address p) (some p.cache_id) b)
                  c
                  cs
                  m
                  ms
                  b))
    go [] h = ground (
      arith,
      host_line_lem p [] c cs m ms b e f,
      share_lem p (line_value c m) (fetched p [] c cs m ms b) lt small,
    )
    go (i ∷ []) h = absurd (l (ap length h))
    go (i ∷ j ∷ is) h = ground (
      arith,
      host_line_lem p (i ∷ j ∷ is) c cs m ms b e f,
      share_lem p (line_value c m) (fetched p (i ∷ j ∷ is) c cs m ms b) lt small,
    )

-- ===== src/CacheBridge/Loop.antt =====
-- opencxl/cxl/component/root_complex/cache_coherency_bridge.py: the main loop, the task that distributes the
-- packets from the devices, and the steps of the bridge among its neighbours.
use opencxl_core.Prelude.{
  inl, inr, arith, Result-cases, ℕ, zero, suc, ◌≡◌, true, false, Option, none, some, List, [], ◌∷◌,
  ◌++◌, if◌then◌else◌, Result, ok, err, ◌>>=◌, exception, attribute_error,
}
use opencxl_core.Cache.Fifo.{CacheRequest, CacheResponse}
use opencxl_core.Cache.Agent.{MemoryResponse}
use opencxl_core.CxlCache.{
  D2hReqPacket, D2hPacket, d2h_req_packet, d2h_rsp_packet, d2h_data_packet, d2h_other_packet,
}
use opencxl_core.HomeAgent.{coh_state_init, coh_state_start}
use opencxl_core.CacheBridge.{
  CacheBridge, BridgePacket, no_packet, host_packet, device_packet, process_cxl_d2h_req_packet,
  process_cxl_d2h_rsp_packet, process_upstream_host_to_target_packets,
}

abbrev start_with : BridgePacket → CacheBridge → CacheBridge
start_with packet b = record b { state = coh_state_start; packet = packet }

unfoldable pub take_host :
    Option CacheRequest → List (Option CacheRequest) → CacheBridge → CacheBridge
take_host none rest b =
    start_with no_packet
      (record b { cache_requests = rest; fc_host_run = true; stop_process = true })
take_host (some r) rest b =
    start_with (host_packet r) (record b { cache_requests = rest; fc_host_run = true })

unfoldable pub take_device : D2hReqPacket → List D2hReqPacket → CacheBridge → CacheBridge
take_device p rest b =
    start_with (device_packet p) (record b { d2h_req = rest; fc_host_run = false })

-- The side that was not served last comes first, if it has a packet.
unfoldable pub select : CacheBridge → CacheBridge
unfolding take_host take_device
select b =
    if b.fc_host_run
    then elim b.d2h_req [
      | p ∷ rest ↦ take_device p rest b
      | [] ↦ elim b.cache_requests [ r ∷ rest ↦ take_host r rest b | [] ↦ b ]
    ]
    else elim b.cache_requests [
      | r ∷ rest ↦ take_host r rest b
      | [] ↦ elim b.d2h_req [ p ∷ rest ↦ take_device p rest b | [] ↦ b ]
    ]

-- `fn(cur_state.packet)`
unfoldable pub process_current : CacheBridge → Result CacheBridge
process_current b = elim b.packet [
  | no_packet ↦ err attribute_error
  | host_packet r ↦ process_upstream_host_to_target_packets r b
  | device_packet p ↦ process_cxl_d2h_req_packet p b
]

unfoldable pub process_rsp : CacheBridge → Result CacheBridge
process_rsp b = elim b.d2h_rsp [
  | [] ↦ ok b
  | p ∷ rest ↦ process_cxl_d2h_rsp_packet p (record b { d2h_rsp = rest })
]

-- One turn of `_cache_coherency_bridege_main_loop`.
unfoldable pub step : CacheBridge → Result CacheBridge
unfolding select process_current process_rsp
step b = elim b.state [ coh_state_init ↦ ok (select b) | _ ↦ process_current b >>= process_rsp ]

-- That many turns.
unfoldable pub steps : ℕ → CacheBridge → Result CacheBridge
unfolding step
steps zero b = ok b
steps (suc n) b = step b >>= steps n

pub steps_last :
    (n : ℕ) (b : CacheBridge) {u v : CacheBridge}
    → steps n b ≡ ok u
    → step u ≡ ok v
    → steps (suc n) b ≡ ok v
unfolding steps
steps_last zero b e f = ground arith
steps_last (suc n) b e f = elim (Result-cases (step b)) [
  | inl (b₁, h) ↦ ground (arith, steps_last n b₁ (ground arith) f)
  | inr (x, h) ↦ absurd (ground arith)
]

-- `_process_downstream_target_to_host_packets`, for one packet.
unfoldable pub process_downstream_target_to_host_packet :
    D2hPacket → CacheBridge → Result CacheBridge
process_downstream_target_to_host_packet (d2h_req_packet p) b =
    ok (record b { d2h_req = b.d2h_req ++ p ∷ [] })
process_downstream_target_to_host_packet (d2h_rsp_packet p) b =
    ok (record b { d2h_rsp = b.d2h_rsp ++ p ∷ [] })
process_downstream_target_to_host_packet (d2h_data_packet p) b =
    ok (record b { d2h_data = b.d2h_data ++ p ∷ [] })
process_downstream_target_to_host_packet d2h_other_packet b = err exception

-- The bridge among its neighbours: the loop turns, the cache or the memory answers, the cache asks, a
-- packet arrives.
pub data Step (b b' : CacheBridge) : Type 0 where
  turn : b.stop_process ≡ false → step b ≡ ok b' → Step b b'
  asked :
      (r : Option CacheRequest)
      → b' ≡ record b { cache_requests = b.cache_requests ++ r ∷ [] }
      → Step b b'
  answered :
      (r : CacheResponse)
      → b' ≡ record b { snoop_responses = b.snoop_responses ++ r ∷ [] }
      → Step b b'
  fetched :
      (r : MemoryResponse)
      → b' ≡ record b { memory_responses = b.memory_responses ++ r ∷ [] }
      → Step b b'
  arrived : (p : D2hPacket) → process_downstream_target_to_host_packet p b ≡ ok b' → Step b b'

pub data Run (b : CacheBridge) : CacheBridge → Type 0 where
  here : Run b b
  next : {u v : CacheBridge} → Run b u → Step u v → Run b v

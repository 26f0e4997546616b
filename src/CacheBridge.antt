-- ===== src/CacheBridge.antt =====
-- opencxl/cxl/component/root_complex/cache_coherency_bridge.py: `CacheCoherencyBridge`, its snoop filter and
-- its handlers. A queue is the list of what waits in it, and what the bridge puts is appended to a list. An
-- `await` on an empty queue ends in `blocked`.
pub mod Loop
pub mod Filter
pub mod Own
pub mod Exclusive
pub mod Evict
pub mod Unsupported
pub mod Shared
pub mod Forward
pub mod Invariant
pub mod Reachable
pub mod Accepted
use opencxl_core.Prelude.{
  ℕ, ◌+◌, ◌%◌, Bool, true, false, not, ◌&&◌, ◌||◌, Option, none, some, List, [], ◌∷◌, ◌++◌,
  if◌then◌else◌, ltb, ◌==◌, range, length, Result, ok, err, ◌>>=◌, ◌>>◌, guard, assertion_error,
  index_error, attribute_error, unbound_local, blocked,
}
use opencxl_core.Cache.Fifo.{
  CacheRequest, CacheRequestType, CacheResponse, CacheResponseStatus, snp_data, snp_inv, ok_status,
  rsp_i, rsp_s, rsp_miss,
}
use opencxl_core.Cache.Agent.{MemoryRequest, MemoryResponse, mem_read, mem_write}
use opencxl_core.CxlCache.{
  D2hReqPacket, D2hRspPacket, D2hDataPacket, H2dPacket, H2dReqOpcode, cache_rd_shared,
  cache_rd_own_no_data, cache_dirty_evict, rsp_i_hit_i, rsp_i_hit_se, rsp_s_hit_se, rsp_s_fwd_m,
  rsp_i_fwd_m, d2h_rsp_number, h2d_snp_data, h2d_snp_inv, go, go_write_pull, state_shared,
  state_exclusive, h2d_req_packet, h2d_rsp_packet, h2d_data_packet, d2h_req_address, create_h2d_req,
  create_h2d_rsp, create_h2d_data,
}
use opencxl_core.HomeAgent.{
  CohState, coh_state_init, coh_state_start, coh_state_wait, coh_state_done,
}

-- `cur_state.packet` with the function that the loop links to it.
pub data BridgePacket : Type 0 where
  no_packet : BridgePacket
  host_packet : CacheRequest → BridgePacket
  device_packet : D2hReqPacket → BridgePacket

-- The machine's state; the snoop filter, by device and address; the next number of the generator of
-- UQIDs; what waits in the queues that the bridge reads; what it has put; and the loop's variables.
pub record CacheBridge : Type 0 where
  pub state : CohState
  pub packet : BridgePacket
  pub cache_rsp : CacheResponseStatus
  pub cache_list : List ℕ
  pub num_cache_devices : ℕ
  pub sf_device : ℕ → ℕ → Bool
  pub uqid : ℕ
  pub cache_requests : List (Option CacheRequest)
  pub snoop_responses : List CacheResponse
  pub memory_responses : List MemoryResponse
  pub d2h_req : List D2hReqPacket
  pub d2h_rsp : List D2hRspPacket
  pub d2h_data : List D2hDataPacket
  pub cache_responses : List CacheResponse
  pub snoop_requests : List CacheRequest
  pub memory_requests : List MemoryRequest
  pub host_to_target : List H2dPacket
  pub fc_host_run : Bool
  pub stop_process : Bool

abbrev pub new_cache_bridge : CacheBridge
new_cache_bridge = record {
  state = coh_state_init;
  packet = no_packet;
  cache_rsp = rsp_i;
  cache_list = [];
  num_cache_devices = 1;
  sf_device = λ id addr. false;
  uqid = 0;
  cache_requests = [];
  snoop_responses = [];
  memory_responses = [];
  d2h_req = [];
  d2h_rsp = [];
  d2h_data = [];
  cache_responses = [];
  snoop_requests = [];
  memory_requests = [];
  host_to_target = [];
  fc_host_run = false;
  stop_process = false;
}

abbrev pub set_cache_coh_dev_count : ℕ → CacheBridge → CacheBridge
set_cache_coh_dev_count count b = record b {
  num_cache_devices = count;
  sf_device = λ id addr. false;
}

-- The number used, and the generator after it.
unfoldable pub get_next_uqid : CacheBridge → ℕ × CacheBridge
get_next_uqid b = (b.uqid, record b { uqid = (b.uqid + 1) % 4096 })

-- `_snoop_filter_update` with one update: the address is in the set of the device, or is not.
-- Every call has a list of one.
unfoldable pub snoop_filter_update : ℕ → ℕ → Bool → CacheBridge → Result CacheBridge
snoop_filter_update addr cache_id device_in b =
    guard (ltb cache_id b.num_cache_devices) index_error
    >> ok (record b {
      sf_device = λ id a. if (id == cache_id) && (a == addr) then device_in else b.sf_device id a;
    })

-- The devices of a list that have the address, but for the one that asks.
unfoldable pub holders : (ℕ → ℕ → Bool) → ℕ → Option ℕ → List ℕ → List ℕ
holders sf addr asker [] = []
holders sf addr none (i ∷ is) =
    let rest = holders sf addr none is in if sf i addr then i ∷ rest else rest
holders sf addr (some id) (i ∷ is) =
    let rest = holders sf addr (some id) is in if not (i == id) && sf i addr then i ∷ rest else rest

unfoldable pub snoop_filter_find_cache_list : ℕ → Option ℕ → CacheBridge → List ℕ
unfolding holders
snoop_filter_find_cache_list addr asker b =
    holders b.sf_device addr asker (range 0 b.num_cache_devices)

abbrev pub put_target : H2dPacket → CacheBridge → CacheBridge
put_target packet b = record b { host_to_target = b.host_to_target ++ packet ∷ [] }

abbrev pub set_state : CohState → CacheBridge → CacheBridge
set_state state b = record b { state = state }

unfoldable pub snoop_invalidate_caches : ℕ → List ℕ → CacheBridge → Result CacheBridge
unfolding create_h2d_req
snoop_invalidate_caches addr [] b = ok b
snoop_invalidate_caches addr (id ∷ ids) b = create_h2d_req addr id h2d_snp_inv >>= λ packet.
    snoop_invalidate_caches addr ids (put_target (h2d_req_packet packet) b)

unfoldable pub snoop_read_latest_data : ℕ → List ℕ → H2dReqOpcode → CacheBridge → Result CacheBridge
unfolding create_h2d_req
snoop_read_latest_data addr (id ∷ []) opcode b = do
  packet ← create_h2d_req addr id opcode
  ok (put_target (h2d_req_packet packet) (record b { cache_rsp = ok_status }))
snoop_read_latest_data addr _ opcode b = err assertion_error

unfoldable pub sync_memory_read : ℕ → CacheBridge → Result (ℕ × CacheBridge)
sync_memory_read addr b =
    let request : MemoryRequest = record { type = mem_read; addr = addr; size = 64; value = 0 } in
    elim b.memory_responses [
      | [] ↦ err blocked
      | r ∷ rest ↦ ok (
        r.value,
        record b { memory_requests = b.memory_requests ++ request ∷ []; memory_responses = rest },
      )
    ]

-- The host's cache is asked, and its answer awaited.
unfoldable pub snoop_host :
    CacheRequestType → ℕ → CacheBridge → Result (CacheResponse × CacheBridge)
snoop_host type addr b =
    let request : CacheRequest = record { type = type; addr = addr; size = 0; value = 0 } in
    elim b.snoop_responses [
      | [] ↦ err blocked
      | r ∷ rest ↦ ok (
        r,
        record b { snoop_requests = b.snoop_requests ++ request ∷ []; snoop_responses = rest },
      )
    ]

-- CACHE_RD_OWN_NO_DATA, in START: the other devices that have the line are to drop it.
unfoldable pub own_start : D2hReqPacket → CacheBridge → Result CacheBridge
unfolding d2h_req_address snoop_filter_find_cache_list snoop_invalidate_caches
own_start p b =
    let list = snoop_filter_find_cache_list (d2h_req_address p) (some p.cache_id) b in
    let listed = record b { cache_list = list } in
    elim list [
      | [] ↦ ok (set_state coh_state_done listed)
      | id ∷ ids ↦ snoop_invalidate_caches (d2h_req_address p) (id ∷ ids) listed >>= λ u.
          ok (set_state coh_state_wait u)
    ]

-- The same in DONE: the host's cache drops the line, and the device is its owner.
unfoldable pub own_done : D2hReqPacket → CacheBridge → Result CacheBridge
unfolding d2h_req_address snoop_host snoop_filter_update
own_done p b = do
  (r, asked) ← snoop_host snp_inv (d2h_req_address p) b
  let sent = put_target (h2d_rsp_packet (create_h2d_rsp p.cache_id go state_exclusive 0)) asked
  snoop_filter_update (d2h_req_address p) p.cache_id true (set_state coh_state_init sent)

-- CACHE_DIRTY_EVICT, in START: the data is called for.
unfoldable pub evict_start : D2hReqPacket → CacheBridge → Result CacheBridge
unfolding get_next_uqid
evict_start p b =
    let (uqid, u) = get_next_uqid b in
    ok (
      set_state coh_state_done
        (put_target (h2d_rsp_packet (create_h2d_rsp p.cache_id go_write_pull uqid p.cqid)) u))

-- `cur_state.packet.get_address()`
unfoldable pub current_address : CacheBridge → Result ℕ
unfolding d2h_req_address
current_address b = elim b.packet [
  | no_packet ↦ err attribute_error
  | host_packet r ↦ ok r.addr
  | device_packet p ↦ ok (d2h_req_address p)
]

-- The same in DONE: the data goes to memory as soon as it is there.
unfoldable pub evict_done : D2hReqPacket → CacheBridge → Result CacheBridge
unfolding current_address snoop_filter_update
evict_done p b = elim b.d2h_data [
  | [] ↦ ok b
  | d ∷ rest ↦ do
    addr ← current_address b
    let request : MemoryRequest = record {
      type = mem_write;
      addr = addr;
      size = 64;
      value = d.value;
    }
    snoop_filter_update addr p.cache_id false (record b {
      d2h_data = rest;
      memory_requests = b.memory_requests ++ request ∷ [];
      state = coh_state_init;
    })
]

-- CACHE_RD_SHARED, in START: a device that alone has the line is asked for it.
unfoldable pub shared_start : D2hReqPacket → CacheBridge → Result CacheBridge
unfolding d2h_req_address snoop_filter_find_cache_list snoop_read_latest_data
shared_start p b =
    let list = snoop_filter_find_cache_list (d2h_req_address p) (some p.cache_id) b in
    let listed = record b { cache_list = list } in
    elim list [
      | id ∷ [] ↦ snoop_read_latest_data (d2h_req_address p) (id ∷ []) h2d_snp_data listed >>= λ u.
          ok (set_state coh_state_wait u)
      | _ ↦ ok (set_state coh_state_done (record listed { cache_rsp = ok_status }))
    ]

-- The line of the host: what its cache has, or else the memory.
unfoldable pub host_line : ℕ → CacheBridge → Result (ℕ × CacheBridge)
unfolding snoop_host sync_memory_read
host_line addr b = do
  (r, asked) ← snoop_host snp_data addr b
  elim r.status [ rsp_miss ↦ sync_memory_read addr asked | _ ↦ ok (r.value, asked) ]

unfoldable pub share : D2hReqPacket → ℕ → CacheBridge → Result CacheBridge
unfolding d2h_req_address create_h2d_data snoop_filter_update
share p value b = do
  packet ← create_h2d_data p.cache_id value p.cqid
  let response = h2d_rsp_packet (create_h2d_rsp p.cache_id go state_shared 0)
  snoop_filter_update (d2h_req_address p) p.cache_id true
      (set_state coh_state_init (put_target (h2d_data_packet packet) (put_target response b)))

-- The same in DONE: the device gets the line, of the other device or of the host.
unfoldable pub shared_done : D2hReqPacket → CacheBridge → Result CacheBridge
unfolding d2h_req_address host_line share
shared_done p b = elim b.cache_rsp [
  | rsp_s ↦ elim b.d2h_data [
    | [] ↦ ok b
    | d ∷ rest ↦ share p d.value (record b { d2h_data = rest })
  ]
  | _ ↦ host_line (d2h_req_address p) b >>= λ r. share p r.0 r.1
]

abbrev pub in_state_done : (CacheBridge → Result CacheBridge) → CacheBridge → Result CacheBridge
in_state_done f b = elim b.state [ coh_state_done ↦ f b | _ ↦ ok b ]

-- `_process_cxl_d2h_req_packet`. A request of another opcode is not answered.
unfoldable pub process_cxl_d2h_req_packet : D2hReqPacket → CacheBridge → Result CacheBridge
unfolding own_start own_done evict_start evict_done shared_start shared_done
process_cxl_d2h_req_packet p b = elim p.cache_opcode [
  | cache_rd_own_no_data ↦ elim b.state [
    | coh_state_start ↦ own_start p b >>= in_state_done (own_done p)
    | coh_state_done ↦ own_done p b
    | _ ↦ ok b
  ]
  | cache_dirty_evict ↦ elim b.state [
    | coh_state_start ↦ evict_start p b
    | coh_state_done ↦ evict_done p b
    | _ ↦ ok b
  ]
  | cache_rd_shared ↦ elim b.state [
    | coh_state_start ↦ shared_start p b >>= in_state_done (shared_done p)
    | coh_state_done ↦ shared_done p b
    | _ ↦ ok b
  ]
  | _ ↦ ok b
]

-- `list.pop()` on a list with an element: the rest, and the last element.
unfoldable pub pop : ℕ → List ℕ → List ℕ × ℕ
pop i [] = ([], i)
pop i (j ∷ js) = let r = pop j js in (i ∷ r.0, r.1)

-- The response that is recorded for an opcode, and whether the device has dropped the line.
unfoldable pub rsp_status : D2hRspPacket → CacheResponseStatus → CacheResponseStatus × Bool
rsp_status p status = elim p.cache_opcode [
  | rsp_i_hit_i ↦ (rsp_i, true)
  | rsp_i_hit_se ↦ (rsp_i, true)
  | rsp_s_hit_se ↦ (rsp_s, false)
  | rsp_s_fwd_m ↦ (rsp_s, false)
  | rsp_i_fwd_m ↦ (rsp_i, true)
  | _ ↦ (status, false)
]

abbrev is_empty : List ℕ → Bool
is_empty [] = true
is_empty (i ∷ is) = false

-- `_process_cxl_d2h_rsp_packet`. The device that has answered is taken to be the last of the list. A
-- response that forwards data ends the wait, any other one when it is the last.
unfoldable pub process_cxl_d2h_rsp_packet : D2hRspPacket → CacheBridge → Result CacheBridge
unfolding rsp_status pop current_address snoop_filter_update
process_cxl_d2h_rsp_packet p b =
    let forwards = not (ltb (d2h_rsp_number p.cache_opcode) (d2h_rsp_number rsp_s_fwd_m)) in
    elim b.cache_list [
      | [] ↦ err (if forwards then index_error else assertion_error)
      | i ∷ is ↦
          let rest = (pop i is).0 in
          let u = record b {
            cache_rsp = (rsp_status p b.cache_rsp).0;
            cache_list = rest;
            state = if forwards || is_empty rest then coh_state_done else b.state;
          } in
          if (rsp_status p b.cache_rsp).1
          then (current_address u >>= λ addr. snoop_filter_update addr (pop i is).1 false u)
          else ok u
    ]

-- `_process_upstream_host_to_target_packets`. A request of the cache has no attribute `address`, which
-- START reads first, so that nothing behind it is reached.
unfoldable pub process_upstream_host_to_target_packets :
    CacheRequest → CacheBridge → Result CacheBridge
process_upstream_host_to_target_packets r b = elim b.state [
  | coh_state_start ↦ err attribute_error
  | coh_state_done ↦ elim b.cache_rsp [
    | rsp_i ↦ err attribute_error
    | rsp_s ↦ elim b.d2h_data [
      | [] ↦ ok b
      | d ∷ rest ↦ ok (record b {
        d2h_data = rest;
        cache_responses = b.cache_responses ++ record { status = rsp_s; value = d.value } ∷ [];
        state = coh_state_init;
      })
    ]
    | _ ↦ err unbound_local
  ]
  | _ ↦ ok b
]

-- ===== src/CacheDcoh.antt =====
-- opencxl/cxl/component/cxl_cache_dcoh.py: `CxlCacheDcoh`, the CXL.cache engine of a device: the handlers
-- and a turn of its main loop. A queue is the list of what waits in it, and what the engine puts is
-- appended to a list. An `await` on an empty queue ends in `blocked`.
pub mod Snoop
use opencxl_core.Prelude.{
  ℕ, ◌+◌, ◌%◌, Bool, true, false, not, Option, none, some, List, [], ◌∷◌, ◌++◌, if◌then◌else◌, ◌==◌,
  Result, ok, err, ◌>>=◌, ◌>>◌, guard, exception, attribute_error, unbound_local, blocked,
}
use opencxl_core.Cache.Fifo.{
  CacheRequest, CacheRequestType, CacheResponse, CacheResponseStatus, snp_data, snp_inv, snp_cur,
  ok_status, rsp_v, rsp_s, rsp_i, rsp_miss,
}
use opencxl_core.CxlCache.{
  D2hReqOpcode, D2hRspOpcode, D2hPacket, H2dReqPacket, H2dRspPacket, H2dDataPacket, H2dReqOpcode,
  H2dPacket, rsp_i_hit_i, rsp_i_hit_se, rsp_v_hit_v, rsp_s_fwd_m, h2d_snp_data, h2d_snp_inv,
  h2d_snp_cur, go, go_write_pull, state_shared, state_exclusive, d2h_req_packet, d2h_rsp_packet,
  d2h_data_packet, h2d_req_packet, h2d_rsp_packet, h2d_data_packet, h2d_other_packet,
  h2d_req_address, create_d2h_req, create_d2h_rsp, create_d2h_data,
}
use opencxl_core.HomeAgent.{CohState, coh_state_init, coh_state_start}

-- `has_downstream` is true of a switch's port, where no snoop may arrive.
pub record CacheDcoh : Type 0 where
  pub has_downstream : Bool
  pub state : CohState
  pub packet : Option CacheRequest
  pub cqid : ℕ
  pub cache_requests : List (Option CacheRequest)
  pub snoop_responses : List CacheResponse
  pub h2d_req : List H2dReqPacket
  pub h2d_rsp : List H2dRspPacket
  pub h2d_data : List H2dDataPacket
  pub cache_responses : List CacheResponse
  pub snoops : List CacheRequest
  pub target_to_host : List D2hPacket
  pub stop_process : Bool

abbrev pub new_cache_dcoh : CacheDcoh
new_cache_dcoh = record {
  has_downstream = false;
  state = coh_state_init;
  packet = none;
  cqid = 0;
  cache_requests = [];
  snoop_responses = [];
  h2d_req = [];
  h2d_rsp = [];
  h2d_data = [];
  cache_responses = [];
  snoops = [];
  target_to_host = [];
  stop_process = false;
}

abbrev pub send : D2hPacket → CacheDcoh → CacheDcoh
send packet d = record d { target_to_host = d.target_to_host ++ packet ∷ [] }

-- The number used, and the generator after it.
unfoldable pub get_next_cqid : CacheDcoh → ℕ × CacheDcoh
get_next_cqid d = (d.cqid, record d { cqid = (d.cqid + 1) % 4096 })

-- `send_d2h_req_rdown`, `send_d2h_req_rdshared`, `send_d2h_req_itomwr` and `send_d2h_req_dirtyevict`, by their
-- opcode.
unfoldable pub send_d2h_req : D2hReqOpcode → ℕ → ℕ → CacheDcoh → Result CacheDcoh
unfolding create_d2h_req
send_d2h_req opcode addr cqid d = do
  packet ← create_d2h_req addr 0 opcode cqid
  ok (send (d2h_req_packet packet) d)

unfoldable pub send_d2h_data : ℕ → ℕ → CacheDcoh → Result CacheDcoh
unfolding create_d2h_data
send_d2h_data value uqid d = do
  packet ← create_d2h_data uqid value
  ok (send (d2h_data_packet packet) d)

-- The request that a snoop makes of the device's cache.
unfoldable pub snoop_type : H2dReqOpcode → CacheRequestType
snoop_type h2d_snp_data = snp_data
snoop_type h2d_snp_inv = snp_inv
snoop_type h2d_snp_cur = snp_cur

-- The answer to a snoop, and whether the line's data follows. A pair that no branch provides for leaves the
-- opcode without a value.
unfoldable pub snoop_answer : H2dReqOpcode → CacheResponseStatus → Result (D2hRspOpcode × Bool)
snoop_answer opcode rsp_miss = ok (rsp_i_hit_i, false)
snoop_answer h2d_snp_inv rsp_i = ok (rsp_i_hit_se, false)
snoop_answer h2d_snp_data rsp_i = err unbound_local
snoop_answer h2d_snp_cur rsp_i = err unbound_local
snoop_answer h2d_snp_data rsp_s = ok (rsp_s_fwd_m, true)
snoop_answer h2d_snp_data rsp_v = ok (rsp_s_fwd_m, true)
snoop_answer h2d_snp_cur rsp_s = ok (rsp_v_hit_v, true)
snoop_answer h2d_snp_cur rsp_v = ok (rsp_v_hit_v, true)
snoop_answer h2d_snp_inv rsp_s = err unbound_local
snoop_answer h2d_snp_inv rsp_v = err unbound_local
snoop_answer opcode _ = err exception

abbrev pub cache_request : H2dReqPacket → CacheRequest
cache_request p = record {
  type = snoop_type p.cache_opcode;
  addr = h2d_req_address p;
  size = 0;
  value = 0;
}

-- The packets that answer a snoop.
unfoldable pub answer_snoop : H2dReqPacket → CacheResponse → CacheDcoh → Result CacheDcoh
unfolding snoop_answer send_d2h_data
answer_snoop p r d = do
  (opcode, data_read) ← snoop_answer p.cache_opcode r.status
  let answered = send (d2h_rsp_packet (create_d2h_rsp 0 opcode)) d
  if data_read then send_d2h_data r.value 0 answered else ok answered

unfoldable pub process_cxl_h2d_req_packet : H2dReqPacket → CacheDcoh → Result CacheDcoh
unfolding snoop_type h2d_req_address answer_snoop
process_cxl_h2d_req_packet p d = guard (not d.has_downstream) exception >> elim d.snoop_responses [
  | [] ↦ err blocked
  | r ∷ rest ↦
      answer_snoop p r
        (record d { snoops = d.snoops ++ cache_request p ∷ []; snoop_responses = rest })
]

abbrev put_response : CacheResponse → CacheDcoh → CacheDcoh
put_response packet d = record d { cache_responses = d.cache_responses ++ packet ∷ [] }

-- GO: the state that the response grants, with the line's data when it is shared.
unfoldable pub granted : ℕ → CacheDcoh → Result CacheDcoh
granted rsp_data d =
    if rsp_data == state_exclusive
    then ok (put_response (record { status = rsp_i; value = 0 }) d)
    else if rsp_data == state_shared
    then elim d.h2d_data [
      | [] ↦ err blocked
      | p ∷ rest ↦
          ok (
            put_response (record { status = rsp_s; value = p.value })
              (record d { h2d_data = rest }))
    ]
    else ok d

-- GO_WRITE_PULL: the data of the current request goes to the host.
unfoldable pub write_pulled : CacheDcoh → Result CacheDcoh
unfolding send_d2h_data
write_pulled d = elim d.packet [
  | none ↦ err attribute_error
  | some r ↦ do
    sent ← send_d2h_data r.value 0 d
    ok (put_response (record { status = ok_status; value = 0 }) sent)
]

unfoldable pub process_cxl_h2d_rsp_packet : H2dRspPacket → CacheDcoh → Result CacheDcoh
unfolding granted write_pulled
process_cxl_h2d_rsp_packet p d = do
  guard (not d.has_downstream) exception
  u ← elim p.cache_opcode as (λ _. Result CacheDcoh) [
    | go ↦ granted p.rsp_data d
    | go_write_pull ↦ write_pulled d
    | _ ↦ ok d
  ]
  ok (record u { state = coh_state_init })

-- Neither `None` nor a request of the cache has the attribute `address` that START reads first.
unfoldable pub process_cache_to_dcoh : CacheDcoh → Result CacheDcoh
process_cache_to_dcoh d = elim d.state [ coh_state_start ↦ err attribute_error | _ ↦ ok d ]

-- `_process_host_to_target`, for one packet.
unfoldable pub process_host_to_target : H2dPacket → CacheDcoh → Result CacheDcoh
process_host_to_target (h2d_req_packet p) d = ok (record d { h2d_req = d.h2d_req ++ p ∷ [] })
process_host_to_target (h2d_rsp_packet p) d = ok (record d { h2d_rsp = d.h2d_rsp ++ p ∷ [] })
process_host_to_target (h2d_data_packet p) d = ok (record d { h2d_data = d.h2d_data ++ p ∷ [] })
process_host_to_target h2d_other_packet d = err exception

-- The device's part of a turn.
unfoldable pub device_part : CacheDcoh → Result CacheDcoh
unfolding process_cache_to_dcoh process_cxl_h2d_rsp_packet
device_part d = elim d.state [
  | coh_state_init ↦ elim d.cache_requests [
    | [] ↦ ok d
    | none ∷ rest ↦ ok (record d {
      cache_requests = rest;
      packet = none;
      stop_process = true;
      state = coh_state_start;
    })
    | some r ∷ rest ↦
        ok (record d { cache_requests = rest; packet = some r; state = coh_state_start })
  ]
  | _ ↦ process_cache_to_dcoh d >>= λ u. elim u.h2d_rsp [
    | [] ↦ ok u
    | p ∷ rest ↦ process_cxl_h2d_rsp_packet p (record u { h2d_rsp = rest })
  ]
]

-- The host's part. Outside INIT the snoop's address is compared with an attribute that the current packet
-- has not.
unfoldable pub host_part : CacheDcoh → Result CacheDcoh
unfolding process_cxl_h2d_req_packet
host_part d = elim d.h2d_req [
  | [] ↦ ok d
  | p ∷ rest ↦ elim d.state [
    | coh_state_init ↦ process_cxl_h2d_req_packet p (record d { h2d_req = rest })
    | _ ↦ err attribute_error
  ]
]

-- One turn of `_cxl_cache_dcoh_main_loop`.
unfoldable pub step : CacheDcoh → Result CacheDcoh
unfolding device_part host_part
step d = device_part d >>= host_part

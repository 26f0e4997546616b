-- ===== src/MemDcoh/Handlers.antt =====
-- opencxl/cxl/component/cxl_mem_dcoh.py: the handlers of the device's coherency engine, and a turn of
-- its main loop.
use opencxl_core.Prelude.{
  ℕ, true, Option, none, some, List, [], ◌∷◌, ◌++◌, if◌then◌else◌, ◌==◌, Result, ok, err, ◌>>=◌,
  ◌>>◌, guard, exception, attribute_error,
}
use opencxl_core.Cache.Fifo.{CacheRequestType, CacheResponse, snp_data, snp_inv, rsp_miss}
use opencxl_core.CxlMem.{
  M2sReqPacket, M2sRwdPacket, M2sBirspPacket, M2sPacket, m2s_req, m2s_rwd, m2s_birsp,
  s2m_ndr_packet, s2m_drs_packet, meta0_state, meta_no_op, meta_invalid, meta_shared, cmp,
  get_address,
}
use opencxl_core.HomeAgent.{coh_state_init, coh_state_start}
use opencxl_core.MemDcoh.{
  MemDcoh, SfUpdateType, sf_host_out, update_all, create_mem_rsp_packet, send, snoop_cache,
  snoop_type, is_data_read, missed, found, send_response,
}

module _ (get_dpa : ℕ → Option ℕ) where
  -- `read_mem` and `write_mem` of the memory device component, for a line of 64 bytes.
  unfoldable pub read_mem : ℕ → MemDcoh → ℕ
  read_mem hpa d = elim (get_dpa hpa) [ none ↦ 0 | some dpa ↦ d.memory dpa ]

  unfoldable pub write_mem : ℕ → ℕ → MemDcoh → MemDcoh
  write_mem hpa value d = elim (get_dpa hpa) [
    | none ↦ d
    | some dpa ↦ record d { memory = λ a. if dpa == a then value else d.memory a }
  ]

  -- A request of a device without a cache: its data alone.
  unfoldable pub read_uncached : M2sReqPacket → MemDcoh → Result MemDcoh
  unfolding read_mem create_mem_rsp_packet
  read_uncached p d = do
    (ndr, drs) ← create_mem_rsp_packet cmp (read_mem (get_address p.addr) d) meta_invalid
    ok (record (send (s2m_drs_packet drs) d) { state = coh_state_init })

  -- The answer to a request when the device's cache has no such line.
  unfoldable pub read_missed : M2sReqPacket → MemDcoh → Result MemDcoh
  unfolding read_mem missed is_data_read send_response
  read_missed p d =
      let data_read = is_data_read p.mem_opcode in
      let value = if data_read then read_mem (get_address p.addr) d else 0 in
      let updated = update_all (get_dpa (get_address p.addr)) (missed p).1 d in
      send_response data_read (missed p).0 value updated

  -- The same when the cache has the line, with its data; the line may be flushed to memory.
  unfoldable pub read_found : M2sReqPacket → CacheResponse → MemDcoh → Result MemDcoh
  unfolding write_mem found is_data_read send_response
  read_found p r d =
      let (opcode, updates, data_flush) = found p r.status in
      let updated = update_all (get_dpa (get_address p.addr)) updates d in
      let flushed =
        if data_flush then write_mem (get_address p.addr) r.value updated else updated in
      send_response (is_data_read p.mem_opcode) opcode r.value flushed

  -- A request that snoops the device's cache.
  unfoldable pub read_cached : M2sReqPacket → MemDcoh → Result MemDcoh
  unfolding snoop_type snoop_cache read_missed read_found
  read_cached p d = do
    type ← snoop_type p.snp_type
    (r, asked) ← snoop_cache (type, get_dpa (get_address p.addr)) d
    elim r.status [ rsp_miss ↦ read_missed p asked | _ ↦ read_found p r asked ]

  unfoldable pub process_cxl_m2s_req_packet : M2sReqPacket → MemDcoh → Result MemDcoh
  unfolding read_uncached read_cached
  process_cxl_m2s_req_packet p d =
      guard d.has_device exception
      >> elim p.meta_field [ meta_no_op ↦ read_uncached p d | meta0_state ↦ read_cached p d ]

  unfoldable pub write_uncached : M2sRwdPacket → MemDcoh → Result MemDcoh
  unfolding write_mem create_mem_rsp_packet
  write_uncached p d = do
    let written = write_mem (get_address p.addr) p.data_value d
    (ndr, drs) ← create_mem_rsp_packet cmp p.data_value meta_invalid
    ok (record (send (s2m_ndr_packet ndr) written) { state = coh_state_init })

  unfoldable pub write_cached : M2sRwdPacket → MemDcoh → Result MemDcoh
  unfolding write_mem snoop_cache create_mem_rsp_packet
  write_cached p d = do
    let dpa = get_dpa (get_address p.addr)
    let type : CacheRequestType = elim p.meta_value [ meta_shared ↦ snp_data | _ ↦ snp_inv ]
    let updates : List SfUpdateType = elim p.meta_value [ meta_invalid ↦ sf_host_out ∷ [] | _ ↦ [] ]
    (r, asked) ← snoop_cache (type, dpa) d
    let written = write_mem (get_address p.addr) p.data_value (update_all dpa updates asked)
    (ndr, drs) ← create_mem_rsp_packet cmp 0 meta_invalid
    ok (send (s2m_ndr_packet ndr) written)

  unfoldable pub process_cxl_m2s_rwd_packet : M2sRwdPacket → MemDcoh → Result MemDcoh
  unfolding write_uncached write_cached
  process_cxl_m2s_rwd_packet p d =
      guard d.has_device exception
      >> elim p.meta_field [ meta_no_op ↦ write_uncached p d | meta0_state ↦ write_cached p d ]

-- Neither `None` nor a request of the cache has the attribute `address` that is read first.
unfoldable pub process_cxl_m2s_birsp_packet : M2sBirspPacket → MemDcoh → Result MemDcoh
process_cxl_m2s_birsp_packet p d = err attribute_error

-- In START the attribute is read too, so the branches behind it are never reached.
unfoldable pub process_cache_to_dcoh : MemDcoh → Result MemDcoh
process_cache_to_dcoh d =
    guard d.has_device exception
    >> elim d.state [ coh_state_start ↦ err attribute_error | _ ↦ ok d ]

-- `_process_host_to_target`, for one packet of a class that the engine takes.
unfoldable pub process_host_to_target : M2sPacket → MemDcoh → MemDcoh
process_host_to_target (m2s_req p) d = record d { m2s_req = d.m2s_req ++ p ∷ [] }
process_host_to_target (m2s_rwd p) d = record d { m2s_rwd = d.m2s_rwd ++ p ∷ [] }
process_host_to_target (m2s_birsp p) d = record d { m2s_birsp = d.m2s_birsp ++ p ∷ [] }

-- The device's part of a turn: a request of the cache is taken, or the current one is processed.
unfoldable pub device_part : MemDcoh → Result MemDcoh
unfolding process_cache_to_dcoh process_cxl_m2s_birsp_packet
device_part d = elim d.state [
  | coh_state_init ↦ elim d.cache_requests [
    | [] ↦ ok d
    | none ∷ rest ↦ ok (record d {
      cache_requests = rest;
      packet = none;
      stop_process = true;
      state = coh_state_start;
    })
    | some r ∷ rest ↦
        ok (record d { cache_requests = rest; packet = some r; state = coh_state_start })
  ]
  | _ ↦ process_cache_to_dcoh d >>= λ u. elim u.m2s_birsp [
    | [] ↦ ok u
    | p ∷ rest ↦ process_cxl_m2s_birsp_packet p (record u { m2s_birsp = rest })
  ]
]

module _ (get_dpa : ℕ → Option ℕ) where
  unfoldable pub host_req_part : MemDcoh → Result MemDcoh
  unfolding process_cxl_m2s_req_packet
  host_req_part d = elim d.m2s_req [
    | [] ↦ ok d
    | p ∷ rest ↦ process_cxl_m2s_req_packet get_dpa p (record d { m2s_req = rest })
  ]

  unfoldable pub host_rwd_part : MemDcoh → Result MemDcoh
  unfolding process_cxl_m2s_rwd_packet
  host_rwd_part d = elim d.m2s_rwd [
    | [] ↦ ok d
    | p ∷ rest ↦ process_cxl_m2s_rwd_packet get_dpa p (record d { m2s_rwd = rest })
  ]

  -- One turn of `_cxl_mem_dcoh_main_loop`.
  unfoldable pub step : MemDcoh → Result MemDcoh
  unfolding device_part host_req_part host_rwd_part
  step d = device_part d >>= host_req_part >>= host_rwd_part

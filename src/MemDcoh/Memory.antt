-- ===== src/MemDcoh/Memory.antt =====
-- opencxl/cxl/component/cxl_mem_dcoh.py: the memory that is written and read.
use opencxl_core.Prelude.{ℕ, ◌≡◌, ◌^◌, ◌<◌, ap, ◌∙◌, arith, true, Option, some, [], ◌∷◌, ◌++◌, ok}
use opencxl_core.CxlMem.{
  M2sReqPacket, M2sRwdPacket, s2m_ndr_packet, s2m_drs_packet, cmp, mem_data, meta_no_op,
  meta_invalid, get_address, create_cmp, create_mem_data,
}
use opencxl_core.HomeAgent.{coh_state_init}
use opencxl_core.MemDcoh.{MemDcoh, create_mem_rsp_packet}
use opencxl_core.MemDcoh.Handlers.{
  read_mem, write_mem, read_uncached, write_uncached, process_cxl_m2s_req_packet,
  process_cxl_m2s_rwd_packet,
}

module _ (get_dpa : ℕ → Option ℕ) where
  read_mem-write_mem :
      (hpa v dpa : ℕ) (d : MemDcoh)
      → get_dpa hpa ≡ some dpa
      → read_mem get_dpa hpa (write_mem get_dpa hpa v d) ≡ v
  unfolding read_mem write_mem
  read_mem-write_mem hpa v dpa d at = ground arith

  write_mem-kept :
      (hpa v : ℕ) (d : MemDcoh)
      → ((write_mem get_dpa hpa v d).has_device ≡ d.has_device)
        × ((write_mem get_dpa hpa v d).target_to_host ≡ d.target_to_host)
  unfolding write_mem
  write_mem-kept hpa v d = ground arith

  read_uncached-eq :
      (p : M2sReqPacket) (d : MemDcoh) (v : ℕ)
      → d.has_device ≡ true
      → p.meta_field ≡ meta_no_op
      → read_mem get_dpa (get_address p.addr) d ≡ v
      → v < 2 ^ 512
      → process_cxl_m2s_req_packet get_dpa p d
        ≡ ok (record d {
          target_to_host =
              d.target_to_host
              ++ s2m_drs_packet (record { opcode = mem_data; data_value = v }) ∷ [];
          state = coh_state_init;
        })
  unfolding process_cxl_m2s_req_packet read_uncached create_mem_rsp_packet create_mem_data
  read_uncached-eq p d v has n e small = ground arith

  -- A line that the host writes to the device without the device's cache, at an address that a decoder
  -- takes, is the line that the device next answers to a read of that address; both requests
  -- return, and are answered with CMP and with the data alone.
  pub read_uncached-write_uncached :
      (w : M2sRwdPacket) (p : M2sReqPacket) (d : MemDcoh) (dpa : ℕ)
      → d.has_device ≡ true
      → w.meta_field ≡ meta_no_op
      → p.meta_field ≡ meta_no_op
      → p.addr ≡ w.addr
      → get_dpa (get_address w.addr) ≡ some dpa
      → w.data_value < 2 ^ 512
      → (d' : MemDcoh) × (process_cxl_m2s_rwd_packet get_dpa w d ≡ ok d')
        × (d'' : MemDcoh) × (process_cxl_m2s_req_packet get_dpa p d' ≡ ok d'')
        × (d''.target_to_host
            ≡ (d.target_to_host ++ s2m_ndr_packet (create_cmp cmp meta_no_op meta_invalid) ∷ [])
              ++ s2m_drs_packet (record { opcode = mem_data; data_value = w.data_value }) ∷ [])
  unfolding process_cxl_m2s_rwd_packet process_cxl_m2s_req_packet write_uncached read_uncached
      write_mem read_mem create_mem_rsp_packet create_mem_data create_cmp
  read_uncached-write_uncached w p d dpa has n n' same at small =
      let hpa = get_address w.addr in
      let u = write_mem get_dpa hpa w.data_value d in
      let ndr = s2m_ndr_packet (create_cmp cmp meta_no_op meta_invalid) in
      let drs = s2m_drs_packet (record { opcode = mem_data; data_value = w.data_value }) in
      let d' : MemDcoh = record u {
        target_to_host = u.target_to_host ++ ndr ∷ [];
        state = coh_state_init;
      } in
      let d'' : MemDcoh = record d' { target_to_host = d'.target_to_host ++ drs ∷ [] } in
      let kept = write_mem-kept hpa w.data_value d in
      let line : read_mem get_dpa (get_address p.addr) d' ≡ w.data_value =
        rw same (read_mem-write_mem hpa w.data_value dpa d at) in
      (
        d',
        ground arith,
        d'',
        read_uncached-eq p d' w.data_value (kept.0 ∙ has) n' line small,
        ap (λ l. (l ++ ndr ∷ []) ++ drs ∷ []) kept.1,
      )

-- ===== src/MemDcoh/Filter.antt =====
-- opencxl/cxl/component/cxl_mem_dcoh.py: the snoop filter.
use opencxl_core.Prelude.{
  ◌⊎◌, ℕ, ◌≡◌, ◌<◌, ◌^◌, ◌&&◌, refl, ap, ◌∙◌, arith, Bool, true, false, Option, List, [], ◌∷◌, ◌++◌,
  ok, inl, inr, if◌then◌else◌,
}
use opencxl_core.Cache.Fifo.{
  CacheRequestType, CacheResponse, CacheResponseStatus, rsp_v, rsp_s, rsp_i, rsp_miss, ok_status,
  failed,
}
use opencxl_core.CxlMem.{M2sReqPacket, S2mNdrOpcode, cmp_s, cmp_e, get_address, create_mem_data}
use opencxl_core.MemDcoh.{
  MemDcoh, same_addr, SfUpdateType, sf_host_in, snoop_filter_update, update_all, snoop_cache,
  snoop_type, is_data_read, missed, found, send_response, create_mem_rsp_packet,
}
use opencxl_core.MemDcoh.Handlers.{write_mem, read_missed, read_found, read_cached}
use opencxl_core.MemDcoh.Reply.{granted, packets, read_cached-Answered}

-- The opcodes that give the host a copy of a line.
unfoldable pub is_grant : S2mNdrOpcode → Bool
is_grant cmp_s = true
is_grant cmp_e = true
is_grant _ = false

-- The snoop filter with one address entered, or not.
abbrev pub entered : Bool → Option ℕ → MemDcoh → Option ℕ → Bool
entered b addr d a = if b && same_addr addr a then true else d.sf_host a

updates-entered :
    (addr a : Option ℕ) (us : List SfUpdateType) (op : S2mNdrOpcode) (d : MemDcoh)
    → (is_grant op ≡ true) × (us ≡ sf_host_in ∷ []) ⊎ (is_grant op ≡ false) × (us ≡ [])
    → (update_all addr us d).sf_host a ≡ entered (is_grant op) addr d a
unfolding update_all snoop_filter_update
updates-entered addr a us op d (inl (g, e)) = ground arith
updates-entered addr a us op d (inr (g, e)) = ground arith

missed_updates :
    (p : M2sReqPacket)
    → (is_grant (missed p).0 ≡ true) × ((missed p).1 ≡ sf_host_in ∷ [])
      ⊎ (is_grant (missed p).0 ≡ false) × ((missed p).1 ≡ [])
unfolding missed is_grant
missed_updates p = ground arith

found_updates :
    (p : M2sReqPacket) (st : CacheResponseStatus)
    → (is_grant (found p st).0 ≡ true) × ((found p st).1 ≡ sf_host_in ∷ [])
      ⊎ (is_grant (found p st).0 ≡ false) × ((found p st).1 ≡ [])
unfolding found is_grant
found_updates p st = ground arith

send_response-sf_host :
    (b : Bool) (op : S2mNdrOpcode) (value : ℕ) (d d' : MemDcoh)
    → send_response b op value d ≡ ok d'
    → (d'.sf_host ≡ d.sf_host) × (d'.memory ≡ d.memory)
unfolding send_response create_mem_rsp_packet create_mem_data
send_response-sf_host true op value d d' e = ground arith
send_response-sf_host false op value d d' e = ground arith

module _ (get_dpa : ℕ → Option ℕ) where
  write_mem-sf_host :
      (b : Bool) (hpa v : ℕ) (d : MemDcoh)
      → (if b then write_mem get_dpa hpa v d else d).sf_host ≡ d.sf_host
  unfolding write_mem
  write_mem-sf_host true hpa v d = ground arith
  write_mem-sf_host false hpa v d = refl

  read_missed-sf_host :
      (p : M2sReqPacket) (d d' : MemDcoh) (a : Option ℕ)
      → read_missed get_dpa p d ≡ ok d'
      → d'.sf_host a ≡ entered (is_grant (missed p).0) (get_dpa (get_address p.addr)) d a
  unfolding read_missed
  read_missed-sf_host p d d' a e =
      let dpa = get_dpa (get_address p.addr) in
      let u = update_all dpa (missed p).1 d in
      ap (λ f. f a) (send_response-sf_host (is_data_read p.mem_opcode) (missed p).0 _ u d' e).0
      ∙ updates-entered dpa a (missed p).1 (missed p).0 d (missed_updates p)

  read_found-sf_host :
      (p : M2sReqPacket) (r : CacheResponse) (d d' : MemDcoh) (a : Option ℕ)
      → read_found get_dpa p r d ≡ ok d'
      → d'.sf_host a ≡ entered (is_grant (found p r.status).0) (get_dpa (get_address p.addr)) d a
  unfolding read_found
  read_found-sf_host p r d d' a e =
      let hpa = get_address p.addr in
      let dpa = get_dpa hpa in
      let u = update_all dpa (found p r.status).1 d in
      let w : MemDcoh = if (found p r.status).2 then write_mem get_dpa hpa r.value u else u in
      ap (λ f. f a)
        (send_response-sf_host (is_data_read p.mem_opcode) (found p r.status).0 r.value w d' e).0
      ∙ ap (λ f. f a) (write_mem-sf_host (found p r.status).2 hpa r.value u)
      ∙ updates-entered dpa a (found p r.status).1 (found p r.status).0 d (found_updates p r.status)

  snooped-sf_host :
      (p : M2sReqPacket) (d d' : MemDcoh) (r : CacheResponse) (rest : List CacheResponse)
      (a : Option ℕ) (type : CacheRequestType)
      → d.snoop_responses ≡ r ∷ rest
      → snoop_type p.snp_type ≡ ok type
      → read_cached get_dpa p d ≡ ok d'
      → d'.sf_host a ≡ entered (is_grant (granted p r.status)) (get_dpa (get_address p.addr)) d a
  unfolding read_cached snoop_cache
  snooped-sf_host p d d' r rest a type q t e = go r.status refl
    where
      asked : MemDcoh
      asked = record d {
        snoops = d.snoops ++ (type, get_dpa (get_address p.addr)) ∷ [];
        snoop_responses = rest;
      }

      Goal : Type 0
      Goal =
          d'.sf_host a ≡ entered (is_grant (granted p r.status)) (get_dpa (get_address p.addr)) d a

      other :
          granted p r.status ≡ (found p r.status).0 → read_found get_dpa p r asked ≡ ok d' → Goal
      other same h = rw same (read_found-sf_host p r asked d' a h)

      go : (st : CacheResponseStatus) → r.status ≡ st → Goal
      go rsp_miss w =
          let h : read_missed get_dpa p asked ≡ ok d' = ground arith in
          let same : granted p r.status ≡ (missed p).0 = ground arith in
          rw same (read_missed-sf_host p asked d' a h)
      go ok_status w = other (ground arith) (ground arith)
      go failed w = other (ground arith) (ground arith)
      go rsp_v w = other (ground arith) (ground arith)
      go rsp_s w = other (ground arith) (ground arith)
      go rsp_i w = other (ground arith) (ground arith)

  -- A request that snoops the device's cache, where the cache's answer and the lines of the memory have at
  -- most 64 bytes: it is answered by one completion, and its line enters the snoop filter exactly if the
  -- opcode of the completion that was sent is CMP_S or CMP_E; no other line enters or leaves. The data
  -- follows the completion if the request reads it.
  pub read_cached-sf_host :
      (p : M2sReqPacket) (d : MemDcoh) (r : CacheResponse) (rest : List CacheResponse)
      (type : CacheRequestType)
      → d.snoop_responses ≡ r ∷ rest
      → snoop_type p.snp_type ≡ ok type
      → r.value < 2 ^ 512
      → ((a : ℕ) → d.memory a < 2 ^ 512)
      → (d' : MemDcoh) × (op : S2mNdrOpcode) × (value : ℕ) × (read_cached get_dpa p d ≡ ok d')
        × (d'.target_to_host ≡ d.target_to_host ++ packets (is_data_read p.mem_opcode) op value)
        × ((a : Option ℕ) → d'.sf_host a ≡ entered (is_grant op) (get_dpa (get_address p.addr)) d a)
  read_cached-sf_host p d r rest type q t v m =
      let (d', value, e, sent) = read_cached-Answered get_dpa p d r rest type q t v m in
      (d', granted p r.status, value, e, sent.0, λ a. snooped-sf_host p d d' r rest a type q t e)

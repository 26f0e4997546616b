-- ===== src/MemDcoh/Reply.antt =====
-- opencxl/cxl/component/cxl_mem_dcoh.py: what the device answers to the packets of the home agent.
use mathlib.Core.List.{append_assoc}
use opencxl_core.Prelude.{
  if◌then◌else◌, ℕ, ◌≡◌, ◌^◌, ◌<◌, refl, ap, ◌∙◌, arith, Bool, true, false, Option, none, some,
  List, [], ◌∷◌, ◌++◌, ok,
}
use opencxl_core.Cache.Fifo.{
  CacheRequestType, CacheResponse, CacheResponseStatus, ok_status, failed, rsp_v, rsp_s, rsp_i,
  rsp_miss,
}
use opencxl_core.CxlMem.{
  M2sReqPacket, S2mPacket, s2m_ndr_packet, s2m_drs_packet, S2mNdrOpcode, cmp, cmp_s, cmp_e, cmp_m,
  bi_conflict_ack, mem_data, meta_any, meta_invalid, meta_no_op, create_cmp, create_mem_data,
  get_address,
}
use opencxl_core.HomeAgent.{response}
use opencxl_core.HomeAgent.Host.{
  Reply, completed_data, shared, exclusive, shared_no_data, exclusive_no_data,
}
use opencxl_core.MemDcoh.{
  MemDcoh, SfUpdateType, update_all, create_mem_rsp_packet, snoop_cache, snoop_type, is_data_read,
  missed, found, send_response, snoop_filter_update,
}
use opencxl_core.MemDcoh.Handlers.{read_missed, read_found, read_mem, write_mem, read_cached}

-- The packets that answer a request.
abbrev pub packets : Bool → S2mNdrOpcode → ℕ → List S2mPacket
packets true op value =
    s2m_ndr_packet (record { opcode = op; meta_field = meta_no_op; meta_value = meta_any })
    ∷ s2m_drs_packet (record { opcode = mem_data; data_value = value })
    ∷ []
packets false op value =
    s2m_ndr_packet (record { opcode = op; meta_field = meta_no_op; meta_value = meta_invalid }) ∷ []

-- What completes a read: with data, any state; without data, a state that is granted.
abbrev pub Completes : Bool → S2mNdrOpcode → Type 0
Completes _ cmp_s = Unit
Completes _ cmp_e = Unit
Completes true cmp = Unit
Completes _ _ = ⊥

pub packets-Reply :
    (b : Bool) (op : S2mNdrOpcode) (value : ℕ)
    → Completes b op
    → (c : CacheResponse) × Reply false c (packets b op value)
packets-Reply true cmp value k = (response ok_status value, completed_data _ _ refl refl refl refl)
packets-Reply true cmp_s value k = (response rsp_s value, shared _ _ refl refl refl refl)
packets-Reply true cmp_e value k = (response rsp_i value, exclusive _ _ refl refl refl refl)
packets-Reply false cmp_s value k =
    (response rsp_s 0, shared_no_data _ refl refl (λ e. ground arith) refl)
packets-Reply false cmp_e value k =
    (response rsp_i 0, exclusive_no_data _ refl refl (λ e. ground arith) refl)
packets-Reply true cmp_m value k = absurd k
packets-Reply true bi_conflict_ack value k = absurd k
packets-Reply false cmp value k = absurd k
packets-Reply false cmp_m value k = absurd k
packets-Reply false bi_conflict_ack value k = absurd k

-- The opcode with which a request is answered.
abbrev pub granted : M2sReqPacket → CacheResponseStatus → S2mNdrOpcode
granted p rsp_miss = (missed p).0
granted p status = (found p status).0

-- Nothing was sent, and no packet of the host was taken.
abbrev pub Untouched : MemDcoh → MemDcoh → Type 0
Untouched d d' = (d'.target_to_host ≡ d.target_to_host) × (d'.m2s_rwd ≡ d.m2s_rwd)

pub update_all-sent :
    (addr : Option ℕ) (us : List SfUpdateType) (d : MemDcoh) → Untouched d (update_all addr us d)
unfolding update_all snoop_filter_update
update_all-sent addr [] d = (refl, refl)
update_all-sent addr (SfUpdateType.sf_host_in ∷ us) d =
    update_all-sent addr us (snoop_filter_update addr SfUpdateType.sf_host_in d)
update_all-sent addr (SfUpdateType.sf_host_out ∷ us) d =
    update_all-sent addr us (snoop_filter_update addr SfUpdateType.sf_host_out d)

send_response-packets :
    (b : Bool) (op : S2mNdrOpcode) (value : ℕ) (d : MemDcoh)
    → value < 2 ^ 512
    → send_response b op value d
      ≡ ok (record d { target_to_host = d.target_to_host ++ packets b op value })
unfolding send_response create_mem_rsp_packet create_mem_data create_cmp
send_response-packets true op value d h =
    let ndr = s2m_ndr_packet (create_cmp op meta_no_op meta_any) in
    let drs = s2m_drs_packet (record { opcode = mem_data; data_value = value }) in
    let behind : (d.target_to_host ++ ndr ∷ []) ++ drs ∷ [] ≡ d.target_to_host ++ (ndr ∷ drs ∷ []) =
      append_assoc d.target_to_host (ndr ∷ []) (drs ∷ []) in
    ground (arith, behind)
send_response-packets false op value d h = ground arith

-- `d'` has answered with `replies`.
abbrev pub Answered : MemDcoh → List S2mPacket → MemDcoh → Type 0
Answered d replies d' = (d'.target_to_host ≡ d.target_to_host ++ replies) × (d'.m2s_rwd ≡ d.m2s_rwd)

pub Untouched-Answered :
    (d u : MemDcoh) (l : List S2mPacket)
    → Untouched d u
    → Answered d l (record u { target_to_host = u.target_to_host ++ l })
Untouched-Answered d u l (e, q) = (ap (λ k. k ++ l) e, q)

pub Untouched-trans : (d u v : MemDcoh) → Untouched d u → Untouched u v → Untouched d v
Untouched-trans d u v (e, q) (e', q') = (e' ∙ e, q' ∙ q)

module _ (get_dpa : ℕ → Option ℕ) where
  pub write_mem-sent : (hpa v : ℕ) (d : MemDcoh) → Untouched d (write_mem get_dpa hpa v d)
  unfolding write_mem
  write_mem-sent hpa v d = ground arith

  pub read_mem-lt :
      (hpa : ℕ) (d : MemDcoh) → ((a : ℕ) → d.memory a < 2 ^ 512) → read_mem get_dpa hpa d < 2 ^ 512
  unfolding read_mem
  read_mem-lt hpa d h =
      elim (get_dpa hpa) as (λ o. elim o [ none ↦ 0 | some dpa ↦ d.memory dpa ] < 2 ^ 512) [
        | none ↦ omega arith
        | some a ↦ h a
      ]

  read_missed-Answered :
      (p : M2sReqPacket) (d : MemDcoh)
      → ((a : ℕ) → d.memory a < 2 ^ 512)
      → (d' : MemDcoh) × (value : ℕ) × (read_missed get_dpa p d ≡ ok d')
        × Answered d (packets (is_data_read p.mem_opcode) (missed p).0 value) d'
  unfolding read_missed
  read_missed-Answered p d m =
      let b = is_data_read p.mem_opcode in
      let hpa = get_address p.addr in
      let u = update_all (get_dpa hpa) (missed p).1 d in
      let value : ℕ = if b then read_mem get_dpa hpa d else 0 in
      let small : value < 2 ^ 512 = ground (arith, read_mem-lt hpa d m) in
      (
        record u { target_to_host = u.target_to_host ++ packets b (missed p).0 value },
        value,
        send_response-packets b (missed p).0 value u small,
        Untouched-Answered d u (packets b (missed p).0 value)
            (update_all-sent (get_dpa hpa) (missed p).1 d),
      )

  flushed-sent :
      (b : Bool) (hpa v : ℕ) (d : MemDcoh)
      → Untouched d (if b then write_mem get_dpa hpa v d else d)
  flushed-sent true hpa v d = write_mem-sent hpa v d
  flushed-sent false hpa v d = (refl, refl)

  read_found-Answered :
      (p : M2sReqPacket) (r : CacheResponse) (d : MemDcoh)
      → r.value < 2 ^ 512
      → (d' : MemDcoh) × (read_found get_dpa p r d ≡ ok d')
        × Answered d (packets (is_data_read p.mem_opcode) (found p r.status).0 r.value) d'
  unfolding read_found
  read_found-Answered p r d v =
      let b = is_data_read p.mem_opcode in
      let hpa = get_address p.addr in
      let u = update_all (get_dpa hpa) (found p r.status).1 d in
      let w : MemDcoh = if (found p r.status).2 then write_mem get_dpa hpa r.value u else u in
      (
        record w { target_to_host = w.target_to_host ++ packets b (found p r.status).0 r.value },
        send_response-packets b (found p r.status).0 r.value w v,
        Untouched-Answered d w (packets b (found p r.status).0 r.value) (
            Untouched-trans d u w (update_all-sent (get_dpa hpa) (found p r.status).1 d)
              (flushed-sent (found p r.status).2 hpa r.value u)),
      )

  -- A request that snoops the cache is answered in one way only.
  pub read_cached-Answered :
      (p : M2sReqPacket) (d : MemDcoh) (r : CacheResponse) (rest : List CacheResponse)
      (type : CacheRequestType)
      → d.snoop_responses ≡ r ∷ rest
      → snoop_type p.snp_type ≡ ok type
      → r.value < 2 ^ 512
      → ((a : ℕ) → d.memory a < 2 ^ 512)
      → (d' : MemDcoh) × (value : ℕ) × (read_cached get_dpa p d ≡ ok d')
        × Answered d (packets (is_data_read p.mem_opcode) (granted p r.status) value) d'
  unfolding read_cached snoop_cache
  read_cached-Answered p d r rest type q t v m = go r.status refl
    where
      asked : MemDcoh
      asked = record d {
        snoops = d.snoops ++ (type, get_dpa (get_address p.addr)) ∷ [];
        snoop_responses = rest;
      }

      Goal : Type 0
      Goal =
          (d' : MemDcoh) × (value : ℕ) × (read_cached get_dpa p d ≡ ok d')
          × Answered d (packets (is_data_read p.mem_opcode) (granted p r.status) value) d'

      other :
          granted p r.status ≡ (found p r.status).0
          → read_cached get_dpa p d ≡ read_found get_dpa p r asked
          → Goal
      other e h = let (d', f, a) = read_found-Answered p r asked v in (d', r.value, h ∙ f, rw e a)

      go : (status : CacheResponseStatus) → r.status ≡ status → Goal
      go rsp_miss e =
          let (d', value, f, a) = read_missed-Answered p asked m in
          let same : granted p r.status ≡ (missed p).0 = ground arith in
          let h : read_cached get_dpa p d ≡ read_missed get_dpa p asked = ground arith in
          (d', value, h ∙ f, rw same a)
      go ok_status e = other (ground arith) (ground arith)
      go failed e = other (ground arith) (ground arith)
      go rsp_v e = other (ground arith) (ground arith)
      go rsp_s e = other (ground arith) (ground arith)
      go rsp_i e = other (ground arith) (ground arith)

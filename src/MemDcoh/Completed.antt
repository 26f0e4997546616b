-- ===== src/MemDcoh/Completed.antt =====
-- opencxl/cxl/component/cxl_mem_dcoh.py: each kind of packet of the home agent is answered in a way that
-- completes a request of the host's cache.
use opencxl_core.Prelude.{
  ◌⊎◌, subst, sym, ℕ, ◌≡◌, ◌^◌, ◌<◌, refl, arith, Bool, true, false, Option, List, [], ◌∷◌, ◌++◌,
  ok, inl, inr,
}
use opencxl_core.Cache.Fifo.{
  CacheRequestType, CacheResponse, CacheResponseStatus, snp_data, snp_inv, ok_status, failed, rsp_v,
  rsp_s, rsp_i, rsp_miss,
}
use opencxl_core.CxlMem.{
  M2sPacket, M2sReqPacket, M2sRwdPacket, m2s_req, m2s_rwd, S2mPacket, s2m_ndr_packet,
  s2m_drs_packet, S2mNdrPacket, S2mDrsPacket, S2mNdrOpcode, cmp, cmp_s, cmp_e, mem_data, mem_wr,
  meta_any, meta_invalid, meta_shared, meta_no_op, meta0_state, M2sReqOpcode, M2sSnpType,
  snp_type_no_op, snp_type_inv, MetaValue, MetaField, create_cmp, create_mem_data, create_mem_rd,
  create_mem_wr, get_address, addr_field,
}
use opencxl_core.HomeAgent.{coh_state_init, response}
use opencxl_core.HomeAgent.Loop.{is_write}
use opencxl_core.HomeAgent.Host.{Reply, written, read_data}
use opencxl_core.MemDcoh.{
  MemDcoh, SfUpdateType, update_all, create_mem_rsp_packet, snoop_cache, snoop_type, is_data_read,
  missed, found,
}
use opencxl_core.MemDcoh.Handlers.{
  read_mem, write_mem, read_uncached, write_uncached, write_cached, process_cxl_m2s_req_packet,
  process_cxl_m2s_rwd_packet, process_host_to_target, step,
}
use opencxl_core.MemDcoh.Reply.{
  Untouched, Completes, packets, granted, packets-Reply, read_cached-Answered, read_mem-lt,
  write_mem-sent, Untouched-Answered, Untouched-trans, update_all-sent,
}
use opencxl_core.MemDcoh.Idle.{IsIdle, CacheAnswers, req-step, rwd-step}

module _ (get_dpa : ℕ → Option ℕ) (d : MemDcoh) (s : CacheResponse) (rest : List CacheResponse)
    (i : IsIdle d s rest) where
  -- The device has answered a packet in a way that completes a request.
  abbrev pub Completed : Bool → M2sPacket → Type 0
  Completed is_write packet =
      (d' : MemDcoh) × (replies : List S2mPacket) × (c : CacheResponse) × (step get_dpa
          (process_host_to_target packet d)
        ≡ ok d')
      × (d'.target_to_host ≡ d.target_to_host ++ replies)
      × Reply is_write c replies

  pub uncached_read-Completed :
      (p : M2sReqPacket) → p.meta_field ≡ meta_no_op → Completed false (m2s_req p)
  unfolding process_cxl_m2s_req_packet read_uncached create_mem_rsp_packet create_mem_data
  uncached_read-Completed p e =
      let value = read_mem get_dpa (get_address p.addr) d in
      let data_packet : S2mDrsPacket = record { opcode = mem_data; data_value = value } in
      let d' : MemDcoh = record d {
        target_to_host = d.target_to_host ++ s2m_drs_packet data_packet ∷ [];
      } in
      let handled : process_cxl_m2s_req_packet get_dpa p d ≡ ok d' =
        ground (
          arith,
          i.has_device,
          i.initial,
          read_mem-lt get_dpa (get_address p.addr) d i.line_size,
        ) in
      (
        d',
        s2m_drs_packet data_packet ∷ [],
        response ok_status value,
        req-step get_dpa p d d' s rest i handled refl,
        refl,
        read_data data_packet refl refl refl,
      )

  pub cached_read-Completed :
      (p : M2sReqPacket) (type : CacheRequestType)
      → p.meta_field ≡ meta0_state
      → snoop_type p.snp_type ≡ ok type
      → Completes (is_data_read p.mem_opcode) (granted p s.status)
      → Completed false (m2s_req p)
  unfolding process_cxl_m2s_req_packet
  cached_read-Completed p type e t k =
      let (d', value, f, a) =
        read_cached-Answered get_dpa p d s rest type i.answer t i.answer_size i.line_size in
      let (c, reply) = packets-Reply (is_data_read p.mem_opcode) (granted p s.status) value k in
      let handled : process_cxl_m2s_req_packet get_dpa p d ≡ ok d' = ground (arith, i.has_device) in
      (
        d',
        packets (is_data_read p.mem_opcode) (granted p s.status) value,
        c,
        req-step get_dpa p d d' s rest i handled a.1,
        a.0,
        reply,
      )

  write-Completed : (p : M2sRwdPacket) → p.data_value < 2 ^ 512 → Completed true (m2s_rwd p)
  unfolding process_cxl_m2s_rwd_packet write_uncached write_cached create_mem_rsp_packet
      create_mem_data create_cmp snoop_cache
  write-Completed p v = go p.meta_field refl
    where
      hpa : ℕ
      hpa = get_address p.addr

      ndr : S2mNdrPacket
      ndr = record { opcode = cmp; meta_field = meta_no_op; meta_value = meta_invalid }

      done :
          (u : MemDcoh)
          → Untouched d u
          → process_cxl_m2s_rwd_packet get_dpa p d
            ≡ ok (record u { target_to_host = u.target_to_host ++ s2m_ndr_packet ndr ∷ [] })
          → Completed true (m2s_rwd p)
      done u q e = (
        record u { target_to_host = u.target_to_host ++ s2m_ndr_packet ndr ∷ [] },
        s2m_ndr_packet ndr ∷ [],
        response ok_status 0,
        rwd-step get_dpa p d _ s rest i e,
        (Untouched-Answered d u (s2m_ndr_packet ndr ∷ []) q).0,
        written ndr refl refl refl,
      )

      asked : MemDcoh
      asked = record d {
        snoops =
            d.snoops
            ++ (
              elim p.meta_value as (λ _. CacheRequestType) [ meta_shared ↦ snp_data | _ ↦ snp_inv ],
              get_dpa hpa,
            )
              ∷ [];
        snoop_responses = rest;
      }

      updates : List SfUpdateType
      updates = elim p.meta_value [ meta_invalid ↦ SfUpdateType.sf_host_out ∷ [] | _ ↦ [] ]

      updated : MemDcoh
      updated = update_all (get_dpa hpa) updates asked

      stored : MemDcoh
      stored = write_mem get_dpa hpa p.data_value updated

      plain : MemDcoh
      plain = record (write_mem get_dpa hpa p.data_value d) { state = coh_state_init }

      go : (m : MetaField) → p.meta_field ≡ m → Completed true (m2s_rwd p)
      go meta_no_op e =
          done plain (write_mem-sent get_dpa hpa p.data_value d) (ground (arith, i.has_device))
      go meta0_state e =
          let behind =
            Untouched-trans d updated stored (update_all-sent (get_dpa hpa) updates asked)
              (write_mem-sent get_dpa hpa p.data_value updated) in
          done stored behind (ground (arith, i.has_device, i.answer))

  -- The packets that the home agent makes, from their fields.
  pub rd-Completed :
      (a : ℕ) (opcode : M2sReqOpcode) (f : MetaField) (v : MetaValue) (t : M2sSnpType)
      (packet : M2sPacket)
      → create_mem_rd a opcode f v t ≡ ok packet
      → ((p : M2sReqPacket)
          → p.mem_opcode ≡ opcode
          → p.meta_field ≡ f
          → p.meta_value ≡ v
          → p.snp_type ≡ t
          → Completed false (m2s_req p))
      → Completed false packet
  unfolding create_mem_rd
  rd-Completed a opcode f v t packet e k =
      let p : M2sReqPacket = record {
        mem_opcode = opcode;
        meta_field = f;
        meta_value = v;
        snp_type = t;
        addr = addr_field a;
      } in
      let same : m2s_req p ≡ packet = ground arith in
      subst (Completed false) same (k p refl refl refl refl)

  pub wr-Completed :
      (a v : ℕ) (f : MetaField) (m : MetaValue) (packet : M2sPacket)
      → create_mem_wr a v mem_wr f m snp_type_no_op ≡ ok packet
      → Completed true packet
  unfolding create_mem_wr
  wr-Completed a v f m packet e =
      let p : M2sRwdPacket = record {
        mem_opcode = mem_wr;
        meta_field = f;
        meta_value = m;
        snp_type = snp_type_no_op;
        addr = addr_field a;
        data_value = v;
      } in
      let same : m2s_rwd p ≡ packet = ground arith in
      let small : v < 2 ^ 512 = ground arith in
      subst (Completed true) same (write-Completed p small)

  cmp-Completes : (op : S2mNdrOpcode) → (op ≡ cmp) ⊎ (op ≡ cmp_s) ⊎ (op ≡ cmp_e) → Completes true op
  cmp-Completes op (inl e) = rw e tt
  cmp-Completes op (inr (inl e)) = rw e tt
  cmp-Completes op (inr (inr e)) = rw e tt

  pub data_Completes :
      (p : M2sReqPacket) (st : CacheResponseStatus)
      → is_data_read p.mem_opcode ≡ true
      → Completes (is_data_read p.mem_opcode) (granted p st)
  unfolding missed found
  data_Completes p st e =
      let one : (granted p st ≡ cmp) ⊎ (granted p st ≡ cmp_s) ⊎ (granted p st ≡ cmp_e) =
        ground arith in
      subst (λ b. Completes b (granted p st)) (sym e) (cmp-Completes (granted p st) one)

  pub inv_Completes :
      (p : M2sReqPacket) (st : CacheResponseStatus)
      → is_data_read p.mem_opcode ≡ false
      → p.snp_type ≡ snp_type_inv
      → p.meta_value ≡ meta_any
      → CacheAnswers snp_inv st
      → Completes (is_data_read p.mem_opcode) (granted p st)
  unfolding missed found
  inv_Completes p st e t m k = subst (λ b. Completes b (granted p st)) (sym e) (go st k)
    where
      go : (st : CacheResponseStatus) → CacheAnswers snp_inv st → Completes false (granted p st)
      go rsp_miss k = subst (Completes false) {x = cmp_e} (ground arith) tt
      go rsp_i k = subst (Completes false) {x = cmp_e} (ground arith) tt
      go rsp_s k = tt
      go ok_status k = absurd k
      go failed k = absurd k
      go rsp_v k = absurd k

-- ===== src/CacheDcoh/Snoop.antt =====
-- opencxl/cxl/component/cxl_cache_dcoh.py: the snoops of the host. The answers of the device's cache are what waits
-- in the engine's fifo: opencxl/cxl/component/cache_controller.py makes the coroutine that would put them there
-- without awaiting it, so that it does not run.
use mathlib.Core.List.{append_assoc, append-nil}
use opencxl_core.Prelude.{
  ℕ, zero, suc, ◌<◌, ◌^◌, ◌≡◌, refl, arith, false, List, [], ◌∷◌, ◌++◌, map, length, Result, ok,
  ◌>>=◌, lt→ltb,
}
use opencxl_core.Cache.Fifo.{
  CacheResponse, CacheResponseStatus, rsp_v, rsp_s, rsp_i, rsp_miss, ok_status, failed,
}
use opencxl_core.CxlCache.{
  H2dReqPacket, H2dReqOpcode, D2hPacket, D2hRspOpcode, rsp_i_hit_i, rsp_i_hit_se, rsp_v_hit_v,
  rsp_s_fwd_m, h2d_snp_data, h2d_snp_inv, h2d_snp_cur, d2h_rsp_packet, d2h_data_packet,
  create_d2h_rsp, create_d2h_data,
}
use opencxl_core.HomeAgent.{coh_state_init}
use opencxl_core.CacheDcoh.{
  CacheDcoh, cache_request, snoop_answer, answer_snoop, send_d2h_data, process_cxl_h2d_req_packet,
  device_part, host_part, step,
}

-- That many turns.
unfoldable pub steps : ℕ → CacheDcoh → Result CacheDcoh
unfolding step
steps zero d = ok d
steps (suc n) d = step d >>= steps n

abbrev with_data : D2hRspOpcode → ℕ → List D2hPacket
with_data opcode value =
    d2h_rsp_packet (create_d2h_rsp 0 opcode)
    ∷ d2h_data_packet (record { uqid = 0; value = value })
    ∷ []

-- The packets that answer a snoop, by the answer of the device's cache.
abbrev pub reply : H2dReqOpcode → CacheResponseStatus → ℕ → List D2hPacket
reply opcode rsp_miss value = d2h_rsp_packet (create_d2h_rsp 0 rsp_i_hit_i) ∷ []
reply h2d_snp_inv _ value = d2h_rsp_packet (create_d2h_rsp 0 rsp_i_hit_se) ∷ []
reply h2d_snp_data _ value = with_data rsp_s_fwd_m value
reply h2d_snp_cur _ value = with_data rsp_v_hit_v value

-- The answers that the engine provides for: there is no line, or it was dropped for a snoop that asks that, or
-- is shared or kept for another.
abbrev pub IsAnswer : H2dReqOpcode → CacheResponseStatus → Type 0
IsAnswer opcode rsp_miss = Unit
IsAnswer h2d_snp_inv rsp_i = Unit
IsAnswer h2d_snp_data rsp_s = Unit
IsAnswer h2d_snp_data rsp_v = Unit
IsAnswer h2d_snp_cur rsp_s = Unit
IsAnswer h2d_snp_cur rsp_v = Unit
IsAnswer _ _ = ⊥

answer_lem :
    (p : H2dReqPacket) (r : CacheResponse) (d : CacheDcoh)
    → IsAnswer p.cache_opcode r.status
    → r.value < 2 ^ 512
    → answer_snoop p r d
      ≡ ok (record d { target_to_host = d.target_to_host ++ reply p.cache_opcode r.status r.value })
unfolding answer_snoop snoop_answer send_d2h_data create_d2h_data
answer_lem p r d a small = go p.cache_opcode r.status refl refl a
  where
    Goal : Type 0
    Goal =
        answer_snoop p r d
        ≡ ok (record d {
          target_to_host = d.target_to_host ++ reply p.cache_opcode r.status r.value;
        })

    sent :
        (o : D2hRspOpcode)
        → (d.target_to_host ++ d2h_rsp_packet (create_d2h_rsp 0 o) ∷ [])
            ++ d2h_data_packet (record { uqid = 0; value = r.value }) ∷ []
          ≡ d.target_to_host ++ with_data o r.value
    sent o =
        append_assoc d.target_to_host (d2h_rsp_packet (create_d2h_rsp 0 o) ∷ [])
          (d2h_data_packet (record { uqid = 0; value = r.value }) ∷ [])

    go :
        (o : H2dReqOpcode) (s : CacheResponseStatus)
        → p.cache_opcode ≡ o
        → r.status ≡ s
        → IsAnswer o s
        → Goal
    go h2d_snp_data rsp_miss e f k = ground arith
    go h2d_snp_inv rsp_miss e f k = ground arith
    go h2d_snp_cur rsp_miss e f k = ground arith
    go h2d_snp_inv rsp_i e f k = ground arith
    go h2d_snp_data rsp_s e f k = ground (arith, lt→ltb r.value (2 ^ 512) small, sent rsp_s_fwd_m)
    go h2d_snp_data rsp_v e f k = ground (arith, lt→ltb r.value (2 ^ 512) small, sent rsp_s_fwd_m)
    go h2d_snp_cur rsp_s e f k = ground (arith, lt→ltb r.value (2 ^ 512) small, sent rsp_v_hit_v)
    go h2d_snp_cur rsp_v e f k = ground (arith, lt→ltb r.value (2 ^ 512) small, sent rsp_v_hit_v)
    go h2d_snp_inv rsp_s e f k = absurd k
    go h2d_snp_inv rsp_v e f k = absurd k
    go h2d_snp_inv ok_status e f k = absurd k
    go h2d_snp_inv failed e f k = absurd k
    go h2d_snp_data rsp_i e f k = absurd k
    go h2d_snp_data ok_status e f k = absurd k
    go h2d_snp_data failed e f k = absurd k
    go h2d_snp_cur rsp_i e f k = absurd k
    go h2d_snp_cur ok_status e f k = absurd k
    go h2d_snp_cur failed e f k = absurd k

-- The engine waits for a request of either side.
pub record IsIdle (d : CacheDcoh) : Type 0 where
  pub state_init : d.state ≡ coh_state_init
  pub no_request : d.cache_requests ≡ []
  pub endpoint : d.has_downstream ≡ false

-- The engine when a snoop has been answered, with the snoops and answers that still wait.
abbrev pub answered :
    H2dReqPacket → CacheResponse → List H2dReqPacket → List CacheResponse → CacheDcoh → CacheDcoh
answered p r rest answers d = record d {
  h2d_req = rest;
  snoop_responses = answers;
  snoops = d.snoops ++ cache_request p ∷ [];
  target_to_host = d.target_to_host ++ reply p.cache_opcode r.status r.value;
}

pub snoop_turn :
    (d : CacheDcoh) (p : H2dReqPacket) (rest : List H2dReqPacket) (r : CacheResponse)
    (answers : List CacheResponse)
    → IsIdle d
    → d.h2d_req ≡ p ∷ rest
    → d.snoop_responses ≡ r ∷ answers
    → IsAnswer p.cache_opcode r.status
    → r.value < 2 ^ 512
    → step d ≡ ok (answered p r rest answers d)
unfolding step device_part host_part process_cxl_h2d_req_packet
snoop_turn d p rest r answers idle q a k small =
    let asked : CacheDcoh = record d {
      h2d_req = rest;
      snoops = d.snoops ++ cache_request p ∷ [];
      snoop_responses = answers;
    } in
    ground (arith, idle.state_init, idle.no_request, idle.endpoint, answer_lem p r asked k small)

-- A snoop with the answer that waits for it.
abbrev pub Answered : Type 0
Answered = H2dReqPacket × CacheResponse

abbrev pub AreAnswers : List Answered → Type 0
AreAnswers [] = Unit
AreAnswers ((p, r) ∷ qs) = IsAnswer p.cache_opcode r.status × (r.value < 2 ^ 512) × AreAnswers qs

abbrev pub replies : List Answered → List D2hPacket
replies [] = []
replies ((p, r) ∷ qs) = reply p.cache_opcode r.status r.value ++ replies qs

-- Snoops that have reached an idle engine, with as many answers of the device's cache that fit them and
-- have at most 64 bytes: in as many turns the engine asks the cache for each and sends the host the reply to
-- each by its own answer, the line behind the response unless there is none or it was to be dropped, all
-- in the order of the snoops; and it is idle.
pub snoops-answered :
    (qs : List Answered) (d : CacheDcoh)
    → IsIdle d
    → d.h2d_req ≡ map (λ q. q.0) qs
    → d.snoop_responses ≡ map (λ q. q.1) qs
    → AreAnswers qs
    → steps (length qs) d
      ≡ ok (record d {
        h2d_req = [];
        snoop_responses = [];
        snoops = d.snoops ++ map (λ q. cache_request q.0) qs;
        target_to_host = d.target_to_host ++ replies qs;
      })
unfolding steps
snoops-answered [] d idle q a k = ground (arith, append-nil d.snoops, append-nil d.target_to_host)
snoops-answered ((p, r) ∷ qs) d idle q a (k, small, ks) =
    let rest = map (λ q. q.0) qs in
    let answers = map (λ q. q.1) qs in
    let first = snoop_turn d p rest r answers idle q a k small in
    let later =
      snoops-answered qs (answered p r rest answers d)
        (record {
          state_init = idle.state_init;
          no_request = idle.no_request;
          endpoint = idle.endpoint;
        })
        refl refl ks in
    ground (
      arith,
      first,
      later,
      append_assoc d.snoops (cache_request p ∷ []) (map (λ q. cache_request q.0) qs),
      append_assoc d.target_to_host (reply p.cache_opcode r.status r.value) (replies qs),
    )

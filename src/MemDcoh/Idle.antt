-- ===== src/MemDcoh/Idle.antt =====
-- opencxl/cxl/component/cxl_mem_dcoh.py: a turn of the main loop of an idle device.
use opencxl_core.Prelude.{ℕ, ◌≡◌, ◌^◌, ◌<◌, arith, true, Option, List, [], ◌∷◌, ◌++◌, ok}
use opencxl_core.Cache.Fifo.{
  CacheRequestType, CacheResponse, CacheResponseStatus, snp_inv, rsp_s, rsp_i, rsp_miss,
}
use opencxl_core.CxlMem.{M2sReqPacket, M2sRwdPacket, m2s_req, m2s_rwd}
use opencxl_core.HomeAgent.{coh_state_init}
use opencxl_core.MemDcoh.{MemDcoh}
use opencxl_core.MemDcoh.Handlers.{
  process_cxl_m2s_req_packet, process_cxl_m2s_rwd_packet, process_host_to_target, device_part,
  host_req_part, host_rwd_part, step,
}

-- The device is idle, and its cache will answer `s`.
pub record IsIdle (d : MemDcoh) (s : CacheResponse) (rest : List CacheResponse) : Type 0 where
  pub has_device : d.has_device ≡ true
  pub initial : d.state ≡ coh_state_init
  pub no_requests : d.cache_requests ≡ []
  pub no_req : d.m2s_req ≡ []
  pub no_rwd : d.m2s_rwd ≡ []
  pub answer : d.snoop_responses ≡ s ∷ rest
  pub answer_size : s.value < 2 ^ 512
  pub line_size : (a : ℕ) → d.memory a < 2 ^ 512

-- What the cache may answer: it does not keep a line valid that a snoop takes away.
abbrev pub CacheAnswers : CacheRequestType → CacheResponseStatus → Type 0
CacheAnswers snp_inv rsp_miss = Unit
CacheAnswers snp_inv rsp_i = Unit
CacheAnswers snp_inv rsp_s = Unit
CacheAnswers snp_inv _ = ⊥
CacheAnswers _ _ = Unit

module _ (get_dpa : ℕ → Option ℕ) where
  pub req-step :
      (p : M2sReqPacket) (d d' : MemDcoh) (s : CacheResponse) (rest : List CacheResponse)
      → IsIdle d s rest
      → process_cxl_m2s_req_packet get_dpa p d ≡ ok d'
      → d'.m2s_rwd ≡ d.m2s_rwd
      → step get_dpa (process_host_to_target (m2s_req p) d) ≡ ok d'
  unfolding step device_part host_req_part host_rwd_part process_host_to_target
  req-step p d d' s rest i e q =
      let same : record (record d { m2s_req = d.m2s_req ++ p ∷ [] }) { m2s_req = [] } ≡ d =
        ground (arith, i.no_req) in
      ground (arith, i.initial, i.no_requests, i.no_req, i.no_rwd)

  pub rwd-step :
      (p : M2sRwdPacket) (d d' : MemDcoh) (s : CacheResponse) (rest : List CacheResponse)
      → IsIdle d s rest
      → process_cxl_m2s_rwd_packet get_dpa p d ≡ ok d'
      → step get_dpa (process_host_to_target (m2s_rwd p) d) ≡ ok d'
  unfolding step device_part host_req_part host_rwd_part process_host_to_target
  rwd-step p d d' s rest i e = ground (arith, i.initial, i.no_requests, i.no_req, i.no_rwd)

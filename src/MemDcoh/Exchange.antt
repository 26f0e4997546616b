-- ===== src/MemDcoh/Exchange.antt =====
-- opencxl/cxl/component/cxl_mem_dcoh.py and root_complex/home_agent.py together: a request of the host's
-- cache, through the home agent and the device, and back.
use opencxl_core.Prelude.{
  ◌%◌, subst, sym, ℕ, ◌≡◌, ◌^◌, ◌<◌, refl, arith, true, false, Option, List, ◌++◌, ok,
}
use opencxl_core.Cache.Fifo.{
  CacheRequest, CacheRequestType, CacheResponse, read, write, snp_data, snp_inv, snp_cur,
  write_back, uncached_write, uncached_read,
}
use opencxl_core.CxlMem.{
  M2sPacket, S2mPacket, mem_rd, mem_inv, meta_any, meta_invalid, meta_shared, meta_no_op,
  meta0_state, snp_type_no_op, snp_type_data, snp_type_cur, snp_type_inv,
}
use opencxl_core.HomeAgent.{HomeAgent}
use opencxl_core.HomeAgent.Loop.{request_packet, is_write}
use opencxl_core.HomeAgent.Host.{
  IsReady, served, exchange_host, exchange_host-served, request_packet-packet_address,
}
use opencxl_core.MemDcoh.{MemDcoh, snoop_type, is_data_read}
use opencxl_core.MemDcoh.Handlers.{process_host_to_target, step}
use opencxl_core.MemDcoh.Idle.{IsIdle, CacheAnswers}
use opencxl_core.MemDcoh.Completed.{
  Completed, uncached_read-Completed, cached_read-Completed, rd-Completed, wr-Completed,
  data_Completes, inv_Completes,
}

module _ (get_dpa : ℕ → Option ℕ) (d : MemDcoh) (s : CacheResponse) (rest : List CacheResponse)
    (i : IsIdle d s rest) where
  -- What the home agent sends for a request of the cache is answered by the device in a way that
  -- completes the request, unless the device's cache keeps a line valid that the request takes away.
  request-Completed :
      (r : CacheRequest) (packet : M2sPacket)
      → request_packet r ≡ ok packet
      → CacheAnswers r.type s.status
      → Completed get_dpa d s rest i (is_write r.type) packet
  unfolding request_packet is_write is_data_read snoop_type
  request-Completed r packet e k = go r.type refl
    where
      read-Completed :
          is_write r.type ≡ false
          → Completed get_dpa d s rest i false packet
          → Completed get_dpa d s rest i (is_write r.type) packet
      read-Completed w c = subst (λ b. Completed get_dpa d s rest i b packet) (sym w) c

      written-Completed :
          is_write r.type ≡ true
          → Completed get_dpa d s rest i true packet
          → Completed get_dpa d s rest i (is_write r.type) packet
      written-Completed w c = subst (λ b. Completed get_dpa d s rest i b packet) (sym w) c

      go :
          (t : CacheRequestType)
          → r.type ≡ t
          → Completed get_dpa d s rest i (is_write r.type) packet
      go read q = read-Completed (ground arith) (
          rd-Completed get_dpa d s rest i r.addr mem_rd meta_no_op meta_any snp_type_no_op packet
            (ground arith) (λ p o f v t. uncached_read-Completed get_dpa d s rest i p f))
      go uncached_read q = read-Completed (ground arith) (
          rd-Completed get_dpa d s rest i r.addr mem_rd meta_no_op meta_any snp_type_no_op packet
            (ground arith) (λ p o f v t. uncached_read-Completed get_dpa d s rest i p f))
      go snp_data q = read-Completed (ground arith) (
          rd-Completed get_dpa d s rest i r.addr mem_rd meta0_state meta_shared snp_type_data packet
            (ground arith)
            (λ p o f v t.
              cached_read-Completed get_dpa d s rest i p snp_data f (ground arith)
                (data_Completes get_dpa d s rest i p s.status (ground arith))))
      go snp_cur q = read-Completed (ground arith) (
          rd-Completed get_dpa d s rest i r.addr mem_rd meta0_state meta_invalid snp_type_cur packet
            (ground arith)
            (λ p o f v t.
              cached_read-Completed get_dpa d s rest i p snp_cur f (ground arith)
                (data_Completes get_dpa d s rest i p s.status (ground arith))))
      go snp_inv q = read-Completed (ground arith) (
          rd-Completed get_dpa d s rest i r.addr mem_inv meta0_state meta_any snp_type_inv packet
            (ground arith)
            (λ p o f v t. cached_read-Completed get_dpa d s rest i p snp_inv f (ground arith) (
              inv_Completes get_dpa d s rest i p s.status (ground arith) t v
                (subst (λ x. CacheAnswers x s.status) q k))))
      go write q =
          written-Completed (ground arith) (
            wr-Completed get_dpa d s rest i r.addr r.value meta_no_op meta_any packet
              (ground arith))
      go write_back q = written-Completed (ground arith) (
          wr-Completed get_dpa d s rest i r.addr r.value meta0_state meta_invalid packet
            (ground arith))
      go uncached_write q =
          written-Completed (ground arith) (
            wr-Completed get_dpa d s rest i r.addr r.value meta_no_op meta_any packet
              (ground arith))

-- A request of the host's cache is served by the home agent and the device together: when it is the
-- request's turn at the home agent, the device is idle, the address is a multiple of 64 below 2 ^ 52 and
-- every line has at most 64 bytes, one turn of the device's loop on the packet that the home agent
-- sends gives replies with which the home agent's three turns end in INIT and give the cache exactly one
-- response. The device's cache must not keep a line valid that the request takes away.
pub exchange-served :
    (get_dpa : ℕ → Option ℕ) (h : HomeAgent) (r : CacheRequest) (later : List (Option CacheRequest))
    (d : MemDcoh) (s : CacheResponse) (rest : List CacheResponse)
    → IsReady h r later
    → IsIdle d s rest
    → r.addr % 64 ≡ 0
    → r.addr < 2 ^ 52
    → r.value < 2 ^ 512
    → CacheAnswers r.type s.status
    → (packet : M2sPacket) × (d' : MemDcoh) × (replies : List S2mPacket) × (c : CacheResponse)
      × (request_packet r ≡ ok packet)
      × (step get_dpa (process_host_to_target packet d) ≡ ok d')
      × (d'.target_to_host ≡ d.target_to_host ++ replies)
      × (exchange_host replies h ≡ ok (served h r later packet c))
exchange-served get_dpa h r later d s rest ready idle a b v k =
    let (packet, e, _) = request_packet-packet_address r a b v in
    let (d', replies, c, f, q, reply) = request-Completed get_dpa d s rest idle r packet e k in
    (packet, d', replies, c, e, f, q, exchange_host-served h r later packet replies c ready e reply)

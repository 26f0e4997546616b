-- ===== src/Router/Return.antt =====
-- opencxl/cxl/component/virtual_switch/routers.py: what answers a device comes back to its port, with the
-- answers of the coherency bridge (opencxl/cxl/component/root_complex/cache_coherency_bridge.py) and of the
-- home agent (opencxl/cxl/component/root_complex/home_agent.py).
use opencxl_core.Prelude.{
  ℕ, ◌+◌, ◌%◌, ◌^◌, ◌<◌, ◌≡◌, ◌≢◌, refl, arith, Bool, true, Option, none, some, List, [], ◌∷◌, ◌++◌,
  length, get_elem?, ok, lt→ltb,
}
use opencxl_core.CxlMem.{S2mBisnpPacket, s2m_bisnp_packet, M2sBirspOpcode, create_birsp}
use opencxl_core.CxlCache.{
  D2hReqPacket, H2dPacket, H2dRspOpcode, d2h_req_packet, h2d_rsp_packet, create_h2d_rsp,
}
use opencxl_core.CacheBridge.Shared.{grant}
use opencxl_core.Hdm.Decoder.{SwitchHdmDecoder}
use opencxl_core.Hdm.Manager.{HdmDecoderManager}
use opencxl_core.Router.{
  to_port, checked_port, decide_cache, add_cache_route_target, CacheIdControl, cache_to_host,
  find_bus, decide_mem, BiControl, mem_to_host,
}

added :
    (before more : List ℕ) (port : ℕ)
    → get_elem? (add_cache_route_target before port ++ more) (length before) ≡ some port
unfolding add_cache_route_target
added [] more port = refl
added (t ∷ ts) more port = added ts more port

-- All packets are sent to the port.
abbrev pub AllTo : List ℕ → ℕ → ℕ → List H2dPacket → Type 0
AllTo targets vppbs port [] = Unit
AllTo targets vppbs port (q ∷ qs) =
    (decide_cache targets vppbs q ≡ ok (to_port port)) × AllTo targets vppbs port qs

-- A device behind a port that assigns the cache id `k`, where the port was the k-th to be added to the cache
-- route table, below 16, and others may have been added since: a request of the device goes to the host
-- with that id, and whatever the bridge then sends to the request's cache id, a response of any opcode or a
-- grant with its line, is sent to that port.
pub response-returns :
    (before more : List ℕ) (port vppbs : ℕ) (c : CacheIdControl) (p : D2hReqPacket) (value : ℕ)
    → port < vppbs
    → length before < 16
    → c.assign_cache_id ≡ 1
    → c.forward_cache_id ≡ 0
    → c.local_cache_id ≡ length before
    → (p' : D2hReqPacket) × (cache_to_host c (d2h_req_packet p) ≡ d2h_req_packet p')
      × (p'.addr ≡ p.addr)
      × (p'.cqid ≡ p.cqid)
      × ((opcode : H2dRspOpcode) (rsp_data cqid : ℕ)
          → decide_cache
              (add_cache_route_target before port ++ more)
              vppbs
              (h2d_rsp_packet (create_h2d_rsp p'.cache_id opcode rsp_data cqid))
            ≡ ok (to_port port))
      × AllTo (add_cache_route_target before port ++ more) vppbs port (grant p' value)
unfolding cache_to_host decide_cache checked_port
response-returns before more port vppbs c p value lt small assign forward id =
    let here = added before more port in
    let same : length before % 2 ^ 4 ≡ length before = omega arith in
    let again : length before % 2 ^ 4 % 2 ^ 4 ≡ length before = omega arith in
    (
      record p { cache_id = c.local_cache_id % 2 ^ 4 },
      ground (arith, assign, forward),
      refl,
      refl,
      λ opcode rsp_data cqid. rw id (rw again (rw here (ground (arith, lt→ltb port vppbs lt)))),
      rw id (rw again (rw here (ground (arith, lt→ltb port vppbs lt)))),
    )

-- No slot of the list has the bus, and each is bound.
abbrev pub Others : ℕ → List (Option ℕ) → Type 0
Others bus [] = Unit
Others bus (none ∷ slots) = ⊥
Others bus (some b ∷ slots) = (b ≢ bus) × Others bus slots

found :
    (before after : List (Option ℕ)) (bus start : ℕ)
    → Others bus before
    → find_bus (before ++ some bus ∷ after) bus start ≡ ok (some (start + length before))
unfolding find_bus
found [] after bus start o = ground arith
found (none ∷ slots) after bus start o = absurd o
found (some b ∷ slots) after bus start (ne, o) = ground (arith, found slots after bus (start + 1) o)

-- A snoop of a device behind a bound port whose BI decoder enables snoops and does not forward them, on a
-- switch that is BI capable, where each port before it is bound and has another bus: the snoop goes to the
-- host with the bus for its id, and a response of any opcode to that id and tag is sent to that port.
pub birsp-returns :
    (before after : List (Option ℕ)) (bus vppbs : ℕ) (named : Bool) (c : BiControl)
    (manager : Option (HdmDecoderManager SwitchHdmDecoder)) (p : S2mBisnpPacket)
    → Others bus before
    → bus < 256
    → length before < vppbs
    → c.bi_enable ≡ 1
    → c.bi_forward ≡ 0
    → (p' : S2mBisnpPacket) × (mem_to_host c true bus (s2m_bisnp_packet p)
        ≡ some (s2m_bisnp_packet p'))
      × (p'.addr ≡ p.addr)
      × ((opcode : M2sBirspOpcode)
          → decide_mem manager
              (before ++ some bus ∷ after)
              named
              vppbs
              (create_birsp opcode p'.bi_id p'.bi_tag)
            ≡ ok (to_port (length before)))
unfolding mem_to_host decide_mem create_birsp checked_port
birsp-returns before after bus vppbs named c manager p o small lt enable forward =
    let same : bus % 2 ^ 12 % 2 ^ 12 ≡ bus = omega arith in
    (
      record p { bi_id = bus % 2 ^ 12 },
      ground (arith, enable, forward),
      refl,
      λ opcode.
          rw same (ground (arith, found before after bus 0 o, lt→ltb (length before) vppbs lt)),
    )

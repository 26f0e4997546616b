-- ===== src/Tests/Router.antt =====
-- opencxl/cxl/component/virtual_switch/routers.py at concrete packets.
use opencxl_core.Prelude.{
  ℕ, ◌+◌, ◌≡◌, ◌++◌, refl, arith, true, false, none, some, [], ◌∷◌, length, ok, err, exception,
  unbound_local,
}
use opencxl_core.CxlMem.{
  S2mBisnpPacket, M2sBirspOpcode, s2m_bisnp_packet, bisnp_data, birsp_i, create_birsp,
}
use opencxl_core.CxlIo.{base_packet, fmt_cfg_rd0, is_cfg_read, is_cfg_write}
use opencxl_core.CxlIo.Cfg.{CxlIoCfgReqHeader}
use opencxl_core.CxlCache.{
  D2hReqPacket, H2dRspOpcode, cache_rd_shared, d2h_req_packet, h2d_rsp_packet, h2d_other_packet,
  create_h2d_rsp,
}
use opencxl_core.CacheBridge.Shared.{grant}
use opencxl_core.Pci.Routing.{PciRoutingTable, new_table}
use opencxl_core.Router.{
  Links, IoPacket, cfg_rd, add_cache_route_target, CacheIdControl, cache_to_host, decide_cache,
  BiControl, mem_to_host, decide_mem, find_bus, to_port,
}
use opencxl_core.Router.Order.{route_all, InOrder, selected, answers}
use opencxl_core.Router.Config.{IsRequest, decide, requests-routed, sum}
use opencxl_core.Router.Return.{response-returns, birsp-returns, AllTo}

abbrev table : PciRoutingTable
table = new_table 2

abbrev header : CxlIoCfgReqHeader
header = record {
  req_id = 0;
  tag = 7;
  first_dw_be = 15;
  last_dw_be = 0;
  dest_id = 0x300;
  ext_reg_num = 0;
  reg_num = 0;
}

-- A configuration read of a bus that no port covers.
abbrev request : IoPacket
request = cfg_rd (record { base = base_packet 18 0 fmt_cfg_rd0 0 1; cfg_req_header = header })

request-IsRequest : IsRequest request
unfolding is_cfg_read is_cfg_write
request-IsRequest = (refl, refl, (header, refl))

abbrev links : Links IoPacket IoPacket
links = record { downstream = [] ∷ [] ∷ []; upstream = [] }

requests-routed_example :
    (l' : Links IoPacket IoPacket) × (route_all
        (decide table true (λ turn. turn))
        0
        (request ∷ request ∷ [])
        links
      ≡ ok l')
    × InOrder (decide table true (λ turn. turn)) 2 0 (request ∷ request ∷ []) links l'
    × (sum
            (λ i.
              length (selected (decide table true (λ turn. turn)) 2 0 i (request ∷ request ∷ [])))
            2
          + length (answers (decide table true (λ turn. turn)) 2 0 (request ∷ request ∷ []))
        ≡ 2)
requests-routed_example =
    requests-routed table true (λ turn. turn) (request ∷ request ∷ []) links
      (request-IsRequest, (request-IsRequest, tt))

abbrev control : CacheIdControl
control = record { assign_cache_id = 1; forward_cache_id = 0; local_cache_id = 1 }

abbrev reading : D2hReqPacket
reading = record { cache_opcode = cache_rd_shared; cqid = 5; cache_id = 0; addr = 1 }

response-returns_example :
    (p' : D2hReqPacket) × (cache_to_host control (d2h_req_packet reading) ≡ d2h_req_packet p')
    × (p'.addr ≡ 1)
    × (p'.cqid ≡ 5)
    × ((opcode : H2dRspOpcode) (rsp_data cqid : ℕ)
        → decide_cache
            (add_cache_route_target (2 ∷ []) 0 ++ 1 ∷ [])
            3
            (h2d_rsp_packet (create_h2d_rsp p'.cache_id opcode rsp_data cqid))
          ≡ ok (to_port 0))
    × AllTo (add_cache_route_target (2 ∷ []) 0 ++ 1 ∷ []) 3 0 (grant p' 99)
response-returns_example =
    response-returns (2 ∷ []) (1 ∷ []) 0 3 control reading 99 (omega arith) (omega arith) refl refl
      refl

abbrev enabled : BiControl
enabled = record { bi_enable = 1; bi_forward = 0 }

abbrev snoop : S2mBisnpPacket
snoop = record { opcode = bisnp_data; bi_id = 0; bi_tag = 9; addr = 4 }

birsp-returns_example :
    (p' : S2mBisnpPacket) × (mem_to_host enabled true 7 (s2m_bisnp_packet snoop)
      ≡ some (s2m_bisnp_packet p'))
    × (p'.addr ≡ 4)
    × ((opcode : M2sBirspOpcode)
        → decide_mem none (some 6 ∷ some 7 ∷ []) false 2 (create_birsp opcode p'.bi_id p'.bi_tag)
          ≡ ok (to_port 1))
birsp-returns_example =
    birsp-returns (some 6 ∷ []) [] 7 2 false enabled none snoop ((λ e. omega arith), tt)
      (omega arith) (omega arith) refl refl

-- A response to a bus that no port has, before any request.
unroutable_test : decide_mem none [] false 0 (create_birsp birsp_i 3 0) ≡ err unbound_local
unfolding decide_mem create_birsp find_bus
unroutable_test = refl

other_test : decide_cache [] 0 h2d_other_packet ≡ err exception
unfolding decide_cache
other_test = refl

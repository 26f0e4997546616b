-- ===== src/Router.antt =====
-- opencxl/cxl/component/virtual_switch/routers.py: the routers of a virtual switch, for one packet each. What
-- a router decides about a packet stands apart from the queues that it puts it on: `downstream` has a queue
-- for each vPPB, and `upstream` is the queue to the host.
pub mod Order
pub mod Config
pub mod Return
use opencxl_core.Prelude.{
  ℕ, ◌+◌, ◌%◌, ◌^◌, Bool, true, false, not, ◌&&◌, ◌||◌, Option, none, some, List, [], ◌∷◌, ◌++◌,
  if◌then◌else◌, ltb, ◌==◌, length, get_elem?, modify, Result, ok, err, ◌>>=◌, ◌>>◌, guard,
  exception, attribute_error, unbound_local,
}
use opencxl_core.Number.{to_be16}
use opencxl_core.CxlIo.{
  CxlIoBasePacket, payload_cxl_io, is_cfg_read, is_cfg_write, is_mem_read, is_mem_write, is_mmio,
}
use opencxl_core.CxlIo.Mreq
use opencxl_core.CxlIo.Mreq.{CxlIoMreqHeader, CxlIoMemRdPacket, CxlIoMemWrPacket}
use opencxl_core.CxlIo.Cfg.{CxlIoCfgReqHeader, CxlIoCfgRdPacket, CxlIoCfgWrPacket}
use opencxl_core.CxlIo.Cpl.{
  CxlIoCompletionPacket, CxlIoCompletionWithDataPacket, create_cpl, create_cpld, cpl_status_sc,
  cpl_status_ur,
}
use opencxl_core.CxlMem.{
  M2sPacket, m2s_req, m2s_rwd, m2s_birsp, S2mPacket, S2mBisnpPacket, s2m_bisnp_packet, get_address,
}
use opencxl_core.CxlCache.{
  D2hPacket, d2h_req_packet, H2dPacket, h2d_req_packet, h2d_rsp_packet, h2d_data_packet,
  h2d_other_packet, set_cache_id,
}
use opencxl_core.Pci.Routing.{PciRoutingTable, get_config_space_target_port, get_mmio_target_port}
use opencxl_core.Hdm.Decoder.{SwitchHdmDecoder}
use opencxl_core.Hdm.Manager.{HdmDecoderManager, get_target}

pub record Links (Down Up : Type 0) : Type 0 where
  pub downstream : List (List Down)
  pub upstream : List Up

pub data Decision (Up : Type 0) : Type 0 where
  to_port : ℕ → Decision Up
  answer : Up → Decision Up
  ignore : Decision Up

module _ {Down Up : Type 0} where
  unfoldable pub put : Down → Decision Up → Links Down Up → Links Down Up
  put packet (to_port port) l = record l {
    downstream = modify l.downstream port (λ queue. queue ++ packet ∷ []);
  }
  put packet (answer response) l = record l { upstream = l.upstream ++ response ∷ [] }
  put packet ignore l = l

  -- One turn of `_process_host_to_target_packets`; `decide` is told how many vPPBs there are.
  unfoldable pub route :
      (ℕ → Down → Result (Decision Up)) → Down → Links Down Up → Result (Links Down Up)
  unfolding put
  route decide packet l =
      decide (length l.downstream) packet >>= λ decision. ok (put packet decision l)

  -- One turn of `_process_target_to_host_packets` of the routers of CXL.io.
  unfoldable pub relay : Up → Links Down Up → Links Down Up
  relay packet l = record l { upstream = l.upstream ++ packet ∷ [] }

-- What travels over CXL.io.
pub data IoPacket : Type 0 where
  cfg_rd : CxlIoCfgRdPacket → IoPacket
  cfg_wr : CxlIoCfgWrPacket → IoPacket
  mem_rd : CxlIoMemRdPacket → IoPacket
  mem_wr : CxlIoMemWrPacket → IoPacket
  cpl : CxlIoCompletionPacket → IoPacket
  cpld : CxlIoCompletionWithDataPacket → IoPacket

abbrev pub base_of : IoPacket → CxlIoBasePacket
base_of (cfg_rd p) = p.base
base_of (cfg_wr p) = p.base
base_of (mem_rd p) = p.base
base_of (mem_wr p) = p.base
base_of (cpl p) = p.base
base_of (cpld p) = p.base

-- The attributes `cfg_req_header` and `mreq_header`, which only the packets of their kind have.
abbrev pub cfg_req_header : IoPacket → Result CxlIoCfgReqHeader
cfg_req_header (cfg_rd p) = ok p.cfg_req_header
cfg_req_header (cfg_wr p) = ok p.cfg_req_header
cfg_req_header _ = err attribute_error

abbrev pub mreq_header : IoPacket → Result CxlIoMreqHeader
mreq_header (mem_rd p) = ok p.mreq_header
mreq_header (mem_wr p) = ok p.mreq_header
mreq_header _ = err attribute_error

abbrev pub is_cxl_io : IoPacket → Bool
is_cxl_io p = (base_of p).payload_type == payload_cxl_io

-- `big` is the byte order of the host, and `random_id` what a completion takes for its own id.
module _ (t : PciRoutingTable) (big : Bool) (random_id : ℕ) where
  unfoldable pub unsupported_request : CxlIoCfgReqHeader → IoPacket
  unfolding create_cpl to_be16
  unsupported_request h =
      cpl (create_cpl big random_id (to_be16 big h.req_id) h.tag cpl_status_ur 0)

  -- `ConfigSpaceRouter`: a request that has no port is answered as unsupported.
  unfoldable pub decide_config : ℕ → IoPacket → Result (Decision IoPacket)
  unfolding is_cfg_read is_cfg_write unsupported_request get_config_space_target_port to_be16
  decide_config vppbs p =
      guard (is_cxl_io p) exception
      >> (guard (is_cfg_read (base_of p) || is_cfg_write (base_of p)) exception
          >> (cfg_req_header p >>= λ h.
              elim (get_config_space_target_port t (to_be16 big h.dest_id)) [
                | none ↦ ok (answer (unsupported_request h))
                | some port ↦
                    if ltb port vppbs
                    then ok (to_port port)
                    else ok (answer (unsupported_request h))
              ]))

  -- `MmioRouter`: a read that has no port is answered with zeros, and a write is dropped.
  unfoldable pub decide_mmio : ℕ → IoPacket → Result (Decision IoPacket)
  unfolding is_mmio is_mem_read create_cpld get_mmio_target_port Mreq.get_address Mreq.get_data_size
      to_be16
  decide_mmio vppbs p =
      guard (is_cxl_io p && is_mmio (base_of p)) exception
      >> (mreq_header p >>= λ h. elim (get_mmio_target_port t (Mreq.get_address h)) [
        | none ↦
            if is_mem_read (base_of p)
            then (create_cpld big random_id (to_be16 big h.req_id) h.tag 0 cpl_status_sc
                  (Mreq.get_data_size (base_of p)) 0
                >>= λ c. ok (answer (cpld c)))
            else ok ignore
        | some port ↦ guard (ltb port vppbs) exception >> ok (to_port port)
      ])

-- The loop of `CxlMemRouter` over the vPPBs: the first one with the bus. A vPPB that is not bound has no
-- registers to read the bus from.
unfoldable pub find_bus : List (Option ℕ) → ℕ → ℕ → Result (Option ℕ)
find_bus [] bus i = ok none
find_bus (none ∷ slots) bus i = err attribute_error
find_bus (some b ∷ slots) bus i = if b == bus then ok (some i) else find_bus slots bus (i + 1)

-- `RoutingTable.get_cxl_mem_target_port`.
unfoldable pub get_cxl_mem_target_port :
    Option (HdmDecoderManager SwitchHdmDecoder) → ℕ → Result (Option ℕ)
unfolding get_target
get_cxl_mem_target_port none addr = err exception
get_cxl_mem_target_port (some m) addr = get_target m addr

-- `None` is a request that is dropped.
unfoldable pub checked_port : {Up : Type 0} → ℕ → Option ℕ → Result (Decision Up)
checked_port vppbs none = ok ignore
checked_port vppbs (some port) = guard (ltb port vppbs) exception >> ok (to_port port)

-- `CxlMemRouter`. The warning about a response that has no port reads a variable that only a request
-- assigns: `named` says whether one came before.
unfoldable pub decide_mem :
    Option (HdmDecoderManager SwitchHdmDecoder)
    → List (Option ℕ)
    → Bool
    → ℕ
    → M2sPacket
    → Result (Decision S2mPacket)
unfolding get_cxl_mem_target_port find_bus checked_port get_address
decide_mem manager buses named vppbs (m2s_req p) =
    get_cxl_mem_target_port manager (get_address p.addr) >>= checked_port vppbs
decide_mem manager buses named vppbs (m2s_rwd p) =
    get_cxl_mem_target_port manager (get_address p.addr) >>= checked_port vppbs
decide_mem manager buses named vppbs (m2s_birsp p) = find_bus buses p.bi_id 0 >>= λ target.
    elim target [
      | none ↦ if named then ok ignore else err unbound_local
      | some port ↦ checked_port vppbs (some port)
    ]

-- The control options of a downstream port's BI decoder.
pub record BiControl : Type 0 where
  pub bi_enable : ℕ
  pub bi_forward : ℕ

-- `_process_target_to_host_packets` of `CxlMemRouter`, for a port with a bus: what goes to the host. A
-- snoop takes the bus for its id where the port is the one that enables it.
unfoldable pub mem_to_host : BiControl → Bool → ℕ → S2mPacket → Option S2mPacket
mem_to_host c bi_capable bus (s2m_bisnp_packet p) =
    if c.bi_enable == c.bi_forward
    then none
    else if (c.bi_enable == 0) && (c.bi_forward == 1)
    then some (s2m_bisnp_packet p)
    else if ((c.bi_enable == 1) && (c.bi_forward == 0)) && bi_capable
    then some (s2m_bisnp_packet (record p { bi_id = bus % 2 ^ 12 }))
    else none
mem_to_host c bi_capable bus p = some p

-- `CxlCacheRouter`: `targets` are the ports that `add_cache_route_target` has added to the cache route table,
-- in the order of their numbers.
unfoldable pub decide_cache : List ℕ → ℕ → H2dPacket → Result (Decision D2hPacket)
unfolding checked_port
decide_cache targets vppbs (h2d_req_packet p) = checked_port vppbs (get_elem? targets p.cache_id)
decide_cache targets vppbs (h2d_rsp_packet p) = checked_port vppbs (get_elem? targets p.cache_id)
decide_cache targets vppbs (h2d_data_packet p) = checked_port vppbs (get_elem? targets p.cache_id)
decide_cache targets vppbs h2d_other_packet = err exception

unfoldable pub add_cache_route_target : List ℕ → ℕ → List ℕ
add_cache_route_target targets physical_port_number = targets ++ physical_port_number ∷ []

-- The control options of a downstream port's cache id decoder.
pub record CacheIdControl : Type 0 where
  pub assign_cache_id : ℕ
  pub forward_cache_id : ℕ
  pub local_cache_id : ℕ

-- `_process_target_to_host_packets` of `CxlCacheRouter`: the packet that goes to the host.
unfoldable pub cache_to_host : CacheIdControl → D2hPacket → D2hPacket
cache_to_host c (d2h_req_packet p) =
    if (c.assign_cache_id == 1) && (c.forward_cache_id == 0)
    then d2h_req_packet (set_cache_id c.local_cache_id p)
    else d2h_req_packet p
cache_to_host c p = p

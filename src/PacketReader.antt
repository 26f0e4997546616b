-- ===== src/PacketReader.antt =====
-- opencxl/cxl/component/packet_reader.py: which kind of packet `PacketReader` makes of what it reads. The
-- stream is a parameter: `read` is `StreamReader.read`, which may return fewer bytes than asked
-- for, and `decode` the fields that a header's bytes make.
use opencxl_core.Prelude.{
  ℕ, ◌-◌, ◌≡◌, Bool, true, false, ◌||◌, not, List, [], ◌∷◌, ◌++◌, if◌then◌else◌, leb, ◌==◌, Result,
  ok, err, ◌>>=◌, ◌>>◌, guard, exception, unbound_local, arith,
}
use opencxl_core.CxlIo.{
  CxlIoBasePacket, is_cfg_type0, is_cfg_type1, is_cfg_read, is_cfg_write, is_mem_read, is_mem_write,
  is_cpl, is_cpld, is_cfg, is_mmio, payload_cxl_io, payload_cxl_mem, payload_cxl_cache,
  payload_cci_mctp, payload_sideband,
}

pub data PacketKind : Type 0 where
  cfg_rd cfg_wr mem_rd mem_wr completion completion_with_data : PacketKind
  m2s_req m2s_rwd m2s_birsp s2m_bisnp s2m_ndr s2m_drs : PacketKind
  d2h_req d2h_rsp d2h_data h2d_req h2d_rsp h2d_data : PacketKind
  get_ld_info_request get_ld_allocations_request set_ld_allocations_request : PacketKind
  get_ld_info_response get_ld_allocations_response set_ld_allocations_response : PacketKind
  sideband_connection_request base_sideband : PacketKind

-- The first test that holds; without one the packet is unbound, and the test for `None` raises.
unfoldable pub get_cxl_io_packet : CxlIoBasePacket → Result PacketKind
unfolding is_cfg_read is_cfg_write is_mem_read is_mem_write is_cpl is_cpld
get_cxl_io_packet p =
    if is_cfg_read p
    then ok cfg_rd
    else if is_cfg_write p
    then ok cfg_wr
    else if is_mem_read p
    then ok mem_rd
    else if is_mem_write p
    then ok mem_wr
    else if is_cpl p
    then ok completion
    else if is_cpld p
    then ok completion_with_data
    else err unbound_local

-- The message classes of CXL.mem and of CXL.cache, by their numbers.
unfoldable pub get_cxl_mem_packet : ℕ → Result PacketKind
get_cxl_mem_packet msg_class =
    if msg_class == 1
    then ok m2s_req
    else if msg_class == 2
    then ok m2s_rwd
    else if msg_class == 3
    then ok m2s_birsp
    else if msg_class == 4
    then ok s2m_bisnp
    else if msg_class == 5
    then ok s2m_ndr
    else if msg_class == 6
    then ok s2m_drs
    else err exception

unfoldable pub get_cxl_cache_packet : ℕ → Result PacketKind
get_cxl_cache_packet msg_class =
    if msg_class == 1
    then ok d2h_req
    else if msg_class == 2
    then ok d2h_rsp
    else if msg_class == 3
    then ok d2h_data
    else if msg_class == 4
    then ok h2d_req
    else if msg_class == 5
    then ok h2d_rsp
    else if msg_class == 6
    then ok h2d_data
    else err exception

-- A request or a response of the CCI, by the command's opcode.
unfoldable pub get_cci_packet : Bool → Bool → ℕ → Result PacketKind
get_cci_packet is_req is_rsp opcode =
    if is_req
    then if opcode == 0x5400
      then ok get_ld_info_request
      else if opcode == 0x5401
      then ok get_ld_allocations_request
      else if opcode == 0x5402
      then ok set_ld_allocations_request
      else err exception
    else if is_rsp
    then if opcode == 0x5400
      then ok get_ld_info_response
      else if opcode == 0x5401
      then ok get_ld_allocations_response
      else if opcode == 0x5402
      then ok set_ld_allocations_response
      else err exception
    else err exception

-- CONNECTION_REQUEST, CONNECTION_ACCEPT and CONNECTION_REJECT; no branch has another type.
unfoldable pub get_sideband_packet : ℕ → Result PacketKind
get_sideband_packet sideband_type =
    if sideband_type == 0
    then ok sideband_connection_request
    else if sideband_type == 1
    then ok base_sideband
    else if sideband_type == 2
    then ok base_sideband
    else err unbound_local

-- The fields that decide, as far as the payload has the header that they are in.
pub record Headers : Type 0 where
  pub base : CxlIoBasePacket
  pub mem_class : ℕ
  pub cache_class : ℕ
  pub sideband_type : ℕ
  pub cci_is_req : Bool
  pub cci_is_rsp : Bool
  pub command_opcode : ℕ

unfoldable pub kind_of : Headers → Result PacketKind
unfolding get_cxl_io_packet get_cxl_mem_packet get_cxl_cache_packet get_sideband_packet
    get_cci_packet
kind_of h =
    if h.base.payload_type == payload_cxl_io
    then get_cxl_io_packet h.base
    else if h.base.payload_type == payload_cxl_mem
    then get_cxl_mem_packet h.mem_class
    else if h.base.payload_type == payload_cxl_cache
    then get_cxl_cache_packet h.cache_class
    else if h.base.payload_type == payload_sideband
    then get_sideband_packet h.sideband_type
    else if h.base.payload_type == payload_cci_mctp
    then get_cci_packet h.cci_is_req h.cci_is_rsp h.command_opcode
    else err exception

module _ {S : Type 0} (read : ℕ → S → Result (List ℕ × S)) (decode : List ℕ → Headers) where
  -- Nothing read is the end of the connection.
  unfoldable pub read_payload : ℕ → S → Result (List ℕ × S)
  read_payload size s = read size s >>= λ r. elim r.0 [ [] ↦ err exception | b ∷ bs ↦ ok r ]

  -- The system header has two bytes.
  unfoldable pub get_payload : S → Result (List ℕ × S)
  unfolding read_payload
  get_payload s = do
    (header, s') ← read_payload 2 s
    let payload_length = (decode header).base.payload_length
    guard (leb 2 payload_length) exception
    (rest, s'') ← read_payload (payload_length - 2) s'
    ok (header ++ rest, s'')

  unfoldable pub get_packet_in_task : S → Result (PacketKind × List ℕ × S)
  unfolding get_payload kind_of
  get_packet_in_task s = do
    (payload, s') ← get_payload s
    kind ← kind_of (decode payload)
    ok (kind, payload, s')

  -- Whatever is raised inside is raised again as an `Exception`.
  unfoldable pub get_packet : Bool → S → Result (PacketKind × List ℕ × S)
  unfolding get_packet_in_task
  get_packet aborted s =
      guard (not aborted) exception
      >> elim (get_packet_in_task s) [ err e ↦ err exception | ok r ↦ ok r ]

-- The result is a packet.
unfoldable pub is_ok : Result PacketKind → Bool
is_ok (ok k) = true
is_ok (err e) = false

-- The reader makes a packet of a CXL.io header exactly where the header is one of a configuration
-- packet (completions are among them) or of a memory request, by the tests that the routers use.
pub is_ok-get_cxl_io_packet :
    (p : CxlIoBasePacket) → is_ok (get_cxl_io_packet p) ≡ (is_cfg p || is_mmio p)
unfolding is_ok get_cxl_io_packet is_cfg_read is_cfg_write is_mem_read is_mem_write is_cpl is_cpld
    is_cfg is_cfg_type0 is_cfg_type1 is_mmio
is_ok-get_cxl_io_packet p = ground arith

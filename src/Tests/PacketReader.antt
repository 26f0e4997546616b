-- ===== src/Tests/PacketReader.antt =====
-- opencxl/cxl/component/packet_reader.py: the kinds of packets at concrete headers.
use opencxl_core.Prelude.{◌≡◌, ◌||◌, refl, ok, err, unbound_local}
use opencxl_core.CxlIo.{base_packet, is_cfg, is_mmio}
use opencxl_core.PacketReader.{
  is_ok, get_cxl_io_packet, is_ok-get_cxl_io_packet, get_sideband_packet, get_cxl_mem_packet,
  s2m_drs,
}

-- A completion with data.
is_ok-get_cxl_io_packet_example :
    is_ok (get_cxl_io_packet (base_packet 20 0 0x4a 0 1))
    ≡ (is_cfg (base_packet 20 0 0x4a 0 1) || is_mmio (base_packet 20 0 0x4a 0 1))
is_ok-get_cxl_io_packet_example = is_ok-get_cxl_io_packet (base_packet 20 0 0x4a 0 1)

-- CONNECTION_DISCONNECTED has no branch.
get_sideband_packet_test : get_sideband_packet 3 ≡ err unbound_local
unfolding get_sideband_packet
get_sideband_packet_test = refl

get_cxl_mem_packet_test : get_cxl_mem_packet 6 ≡ ok s2m_drs
unfolding get_cxl_mem_packet
get_cxl_mem_packet_test = refl

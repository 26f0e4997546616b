-- ===== src/Tests/CxlIo.antt =====
-- opencxl/cxl/transport/transaction.py: CXL.io packets at concrete requests.
use opencxl_core.Prelude.{◌≡◌, ◌%◌, ◌*◌, refl, arith, true, false, none, some, ok}
use opencxl_core.Pci.Bdf.{extract_bus_from_bdf, extract_device_from_bdf, extract_function_from_bdf}
use opencxl_core.CxlIo.{choose_tag}
use opencxl_core.CxlIo.Mreq.{CxlIoMreqHeader, get_address, get_data_size, fill_length, length_dword}
use opencxl_core.CxlIo.Mreq
use opencxl_core.CxlIo.Mreq.Laws.{get_address-fill, get_data_size-fill_length}
use opencxl_core.CxlIo.Cfg.{
  CxlIoCfgReqHeader, CxlIoCfgWrPacket, fill, create_cfg_wr, get_cfg_addr_read_info,
  get_cfg_addr_write_info, get_bus, get_device, get_function, get_value, lowest_bit,
}
use opencxl_core.CxlIo.Cfg.Laws.{get_value-create_cfg_wr, get_cfg_addr_read_info-fill}

get_address-fill_example :
    (h : CxlIoMreqHeader) × (Mreq.fill 0x123456789a 8 0 1 ≡ ok h) × (get_address h ≡ 0x1234567898)
get_address-fill_example = get_address-fill 0x123456789a 8 0 1 (omega arith)

-- A request of 2000 bytes at 2: 501 double words, of which 245 are left.
get_data_size-fill_length_example :
    get_data_size (fill_length 2 2000 22 0 0x20) ≡ length_dword 2 2000 % 256 * 4
get_data_size-fill_length_example = get_data_size-fill_length 2 2000 22 0 0x20

get_value-create_cfg_wr_example :
    (p : CxlIoCfgWrPacket) × (create_cfg_wr false 0x1234 0x105 2 0xbeef true none none 0 41
      ≡ ok (p, (choose_tag none 41).1))
    × (get_cfg_addr_write_info p.cfg_req_header ≡ some (0x105, 2))
    × (get_value p ≡ some 0xbeef)
get_value-create_cfg_wr_example =
    get_value-create_cfg_wr false 0x1234 0x105 2 0xbeef true none none 0 41 (omega arith)
      (omega arith) (omega arith) (omega arith)

get_cfg_addr_read_info-fill_example :
    (h : CxlIoCfgReqHeader) × (fill false 0x1234 0x105 2 0 41 ≡ ok h)
    × (get_cfg_addr_read_info h ≡ (0x104, 4))
    × (get_bus false h ≡ extract_bus_from_bdf 0x1234)
    × (get_device false h ≡ extract_device_from_bdf 0x1234)
    × (get_function false h ≡ extract_function_from_bdf 0x1234)
get_cfg_addr_read_info-fill_example =
    get_cfg_addr_read_info-fill false 0x1234 0x105 2 0 41 (omega arith) (omega arith) (omega arith)

-- An access of no bytes enables none, and the loop for the lowest one does not end.
no_bytes_test : lowest_bit 4 0 1 0 ≡ none
unfolding lowest_bit
no_bytes_test = refl

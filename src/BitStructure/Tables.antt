-- ===== src/BitStructure/Tables.antt =====
-- opencxl/cxl/transport/transaction.py: the fields of the headers and of the messages of fixed layout,
-- in the order of their declaration.
use opencxl_core.Prelude.{List, [], ◌∷◌}
use opencxl_core.BitStructure.{DataField, bit_field, byte_field}

abbrev pub sideband_header_packet_fields : List DataField
sideband_header_packet_fields = byte_field 0 0 ∷ []

abbrev pub tlp_prefix_fields : List DataField
tlp_prefix_fields = bit_field 0 7 ∷ bit_field 8 23 ∷ bit_field 24 31 ∷ []

abbrev pub cxl_io_header_fields : List DataField
cxl_io_header_fields =
    bit_field 0 7
    ∷ bit_field 8 8
    ∷ bit_field 9 9
    ∷ bit_field 10 10
    ∷ bit_field 11 11
    ∷ bit_field 12 14
    ∷ bit_field 15 15
    ∷ bit_field 16 17
    ∷ bit_field 18 19
    ∷ bit_field 20 21
    ∷ bit_field 22 22
    ∷ bit_field 23 23
    ∷ bit_field 24 31
    ∷ []

abbrev pub cxl_io_mreq_header_fields : List DataField
cxl_io_mreq_header_fields =
    bit_field 0 15
    ∷ bit_field 16 23
    ∷ bit_field 24 27
    ∷ bit_field 28 31
    ∷ bit_field 32 87
    ∷ bit_field 88 89
    ∷ bit_field 90 95
    ∷ []

abbrev pub cxl_io_cfg_req_header_fields : List DataField
cxl_io_cfg_req_header_fields =
    bit_field 0 15
    ∷ bit_field 16 23
    ∷ bit_field 24 27
    ∷ bit_field 28 31
    ∷ bit_field 32 47
    ∷ bit_field 48 51
    ∷ bit_field 52 55
    ∷ bit_field 56 57
    ∷ bit_field 58 63
    ∷ []

abbrev pub cxl_io_completion_header_fields : List DataField
cxl_io_completion_header_fields =
    bit_field 0 15
    ∷ bit_field 16 19
    ∷ bit_field 20 20
    ∷ bit_field 21 23
    ∷ bit_field 24 31
    ∷ bit_field 32 47
    ∷ bit_field 48 55
    ∷ bit_field 56 62
    ∷ bit_field 63 63
    ∷ []

abbrev pub cxl_cache_header_packet_fields : List DataField
cxl_cache_header_packet_fields = byte_field 0 0 ∷ byte_field 1 1 ∷ []

abbrev pub cxl_cache_d2h_req_header_fields : List DataField
cxl_cache_d2h_req_header_fields =
    bit_field 0 0
    ∷ bit_field 1 5
    ∷ bit_field 6 17
    ∷ bit_field 18 18
    ∷ bit_field 19 22
    ∷ bit_field 23 68
    ∷ bit_field 69 71
    ∷ []

abbrev pub cxl_cache_d2h_rsp_header_fields : List DataField
cxl_cache_d2h_rsp_header_fields =
    bit_field 0 0 ∷ bit_field 1 5 ∷ bit_field 6 17 ∷ bit_field 18 23 ∷ []

abbrev pub cxl_cache_d2h_data_header_fields : List DataField
cxl_cache_d2h_data_header_fields =
    bit_field 0 0
    ∷ bit_field 1 12
    ∷ bit_field 13 13
    ∷ bit_field 14 14
    ∷ bit_field 15 15
    ∷ bit_field 16 23
    ∷ []

abbrev pub cxl_cache_h2d_req_header_fields : List DataField
cxl_cache_h2d_req_header_fields =
    bit_field 0 0
    ∷ bit_field 1 3
    ∷ bit_field 4 49
    ∷ bit_field 50 61
    ∷ bit_field 62 65
    ∷ bit_field 66 71
    ∷ []

abbrev pub cxl_cache_h2d_rsp_header_fields : List DataField
cxl_cache_h2d_rsp_header_fields =
    bit_field 0 0
    ∷ bit_field 1 4
    ∷ bit_field 5 16
    ∷ bit_field 17 18
    ∷ bit_field 19 30
    ∷ bit_field 31 34
    ∷ bit_field 35 39
    ∷ []

abbrev pub cxl_cache_h2d_data_header_fields : List DataField
cxl_cache_h2d_data_header_fields =
    bit_field 0 0
    ∷ bit_field 1 12
    ∷ bit_field 13 13
    ∷ bit_field 14 14
    ∷ bit_field 15 18
    ∷ bit_field 19 23
    ∷ []

abbrev pub cxl_mem_header_packet_fields : List DataField
cxl_mem_header_packet_fields = byte_field 0 0 ∷ byte_field 1 1 ∷ []

abbrev pub cxl_mem_m2s_req_header_fields : List DataField
cxl_mem_m2s_req_header_fields =
    bit_field 0 0
    ∷ bit_field 1 4
    ∷ bit_field 5 7
    ∷ bit_field 8 9
    ∷ bit_field 10 11
    ∷ bit_field 12 27
    ∷ bit_field 28 73
    ∷ bit_field 74 77
    ∷ bit_field 78 97
    ∷ bit_field 98 99
    ∷ bit_field 100 103
    ∷ []

abbrev pub cxl_mem_m2s_rwd_header_fields : List DataField
cxl_mem_m2s_rwd_header_fields =
    bit_field 0 0
    ∷ bit_field 1 4
    ∷ bit_field 5 7
    ∷ bit_field 8 9
    ∷ bit_field 10 11
    ∷ bit_field 12 27
    ∷ bit_field 28 73
    ∷ bit_field 74 74
    ∷ bit_field 75 75
    ∷ bit_field 76 79
    ∷ bit_field 80 101
    ∷ bit_field 102 103
    ∷ []

abbrev pub cxl_mem_m2s_birsp_header_fields : List DataField
cxl_mem_m2s_birsp_header_fields =
    bit_field 0 0
    ∷ bit_field 1 4
    ∷ bit_field 5 16
    ∷ bit_field 17 28
    ∷ bit_field 29 30
    ∷ bit_field 31 39
    ∷ []

abbrev pub cxl_mem_s2m_bisnp_header_fields : List DataField
cxl_mem_s2m_bisnp_header_fields =
    bit_field 0 0
    ∷ bit_field 1 4
    ∷ bit_field 5 16
    ∷ bit_field 17 28
    ∷ bit_field 29 74
    ∷ bit_field 75 79
    ∷ []

abbrev pub cxl_mem_s2m_ndr_header_fields : List DataField
cxl_mem_s2m_ndr_header_fields =
    bit_field 0 0
    ∷ bit_field 1 3
    ∷ bit_field 4 5
    ∷ bit_field 6 7
    ∷ bit_field 8 23
    ∷ bit_field 24 27
    ∷ bit_field 28 29
    ∷ bit_field 30 39
    ∷ []

abbrev pub cxl_mem_s2m_drs_header_fields : List DataField
cxl_mem_s2m_drs_header_fields =
    bit_field 0 0
    ∷ bit_field 1 3
    ∷ bit_field 4 5
    ∷ bit_field 6 7
    ∷ bit_field 8 23
    ∷ bit_field 24 24
    ∷ bit_field 25 28
    ∷ bit_field 29 30
    ∷ bit_field 31 39
    ∷ []

abbrev pub cci_header_packet_fields : List DataField
cci_header_packet_fields = byte_field 0 0 ∷ byte_field 1 1 ∷ []

abbrev pub cci_message_header_packet_fields : List DataField
cci_message_header_packet_fields =
    bit_field 0 3
    ∷ bit_field 4 7
    ∷ bit_field 8 15
    ∷ bit_field 16 23
    ∷ bit_field 24 39
    ∷ bit_field 40 55
    ∷ bit_field 56 60
    ∷ bit_field 61 62
    ∷ bit_field 63 63
    ∷ bit_field 64 79
    ∷ bit_field 80 95
    ∷ []

abbrev pub cci_request_header_fields : List DataField
cci_request_header_fields = bit_field 0 7 ∷ bit_field 8 15 ∷ bit_field 16 31 ∷ []

abbrev pub get_ld_allocations_request_payload_fields : List DataField
get_ld_allocations_request_payload_fields = bit_field 0 7 ∷ bit_field 8 15 ∷ []

abbrev pub set_ld_allocations_request_payload_fields : List DataField
set_ld_allocations_request_payload_fields = bit_field 0 7 ∷ bit_field 8 15 ∷ bit_field 16 31 ∷ []

abbrev pub cci_response_header_fields : List DataField
cci_response_header_fields = bit_field 0 15 ∷ bit_field 16 31 ∷ []

abbrev pub get_ld_info_response_payload_fields : List DataField
get_ld_info_response_payload_fields = bit_field 0 63 ∷ bit_field 64 79 ∷ bit_field 80 87 ∷ []

abbrev pub get_ld_allocations_response_payload_fields : List DataField
get_ld_allocations_response_payload_fields =
    bit_field 0 7 ∷ bit_field 8 15 ∷ bit_field 16 23 ∷ bit_field 24 31 ∷ bit_field 32 95 ∷ []

abbrev pub set_ld_allocations_response_payload_fields : List DataField
set_ld_allocations_response_payload_fields = bit_field 0 7 ∷ bit_field 8 15 ∷ bit_field 16 31 ∷ []

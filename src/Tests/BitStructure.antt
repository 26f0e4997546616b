-- ===== src/Tests/BitStructure.antt =====
-- opencxl/cxl/transport/transaction.py: every header passes the check, and ends where it should.
use opencxl_core.Prelude.{◌/◌, ◌≡◌, refl, ok, if◌then◌else◌, ltb, [], ◌∷◌}
use opencxl_core.BitStructure.{
  bit_field, check_if_fields_are_valid, check_offsets, check_field, count_fields, is_bit_field,
  is_byte_or_structure_field, is_dynamic_byte_field, get_size,
}
use opencxl_core.BitStructure.Partition.{
  has_offset, ends_in_bits, check_if_fields_are_valid-count_fields,
  get_size-check_if_fields_are_valid,
}
use opencxl_core.BitStructure.Tables.{
  sideband_header_packet_fields, tlp_prefix_fields, cxl_io_header_fields, cxl_io_mreq_header_fields,
  cxl_io_cfg_req_header_fields, cxl_io_completion_header_fields, cxl_cache_header_packet_fields,
  cxl_cache_d2h_req_header_fields, cxl_cache_d2h_rsp_header_fields,
  cxl_cache_d2h_data_header_fields, cxl_cache_h2d_req_header_fields,
  cxl_cache_h2d_rsp_header_fields, cxl_cache_h2d_data_header_fields, cxl_mem_header_packet_fields,
  cxl_mem_m2s_req_header_fields, cxl_mem_m2s_rwd_header_fields, cxl_mem_m2s_birsp_header_fields,
  cxl_mem_s2m_bisnp_header_fields, cxl_mem_s2m_ndr_header_fields, cxl_mem_s2m_drs_header_fields,
  cci_header_packet_fields, cci_message_header_packet_fields, cci_request_header_fields,
  get_ld_allocations_request_payload_fields, set_ld_allocations_request_payload_fields,
  cci_response_header_fields, get_ld_info_response_payload_fields,
  get_ld_allocations_response_payload_fields, set_ld_allocations_response_payload_fields,
}

check_if_fields_are_valid-count_fields_example :
    count_fields (has_offset 90) cxl_io_mreq_header_fields ≡ (if ltb 90 96 then 1 else 0)
unfolding check_if_fields_are_valid check_offsets check_field count_fields is_bit_field
    is_byte_or_structure_field is_dynamic_byte_field
check_if_fields_are_valid-count_fields_example =
    check_if_fields_are_valid-count_fields cxl_io_mreq_header_fields 96 90 refl

get_size-check_if_fields_are_valid_test :
    get_size cxl_io_mreq_header_fields
    ≡ ok (if ends_in_bits cxl_io_mreq_header_fields then 96 / 8 else 96)
unfolding check_if_fields_are_valid check_offsets check_field count_fields is_bit_field
    is_byte_or_structure_field is_dynamic_byte_field
get_size-check_if_fields_are_valid_test =
    get_size-check_if_fields_are_valid (bit_field 0 15)
      (bit_field 16 23
        ∷ bit_field 24 27
        ∷ bit_field 28 31
        ∷ bit_field 32 87
        ∷ bit_field 88 89
        ∷ bit_field 90 95
        ∷ [])
      96 refl

sideband_header_packet_fields_test : check_if_fields_are_valid sideband_header_packet_fields ≡ ok 1
unfolding check_if_fields_are_valid check_offsets check_field count_fields is_bit_field
    is_byte_or_structure_field is_dynamic_byte_field
sideband_header_packet_fields_test = refl

tlp_prefix_fields_test : check_if_fields_are_valid tlp_prefix_fields ≡ ok 32
unfolding check_if_fields_are_valid check_offsets check_field count_fields is_bit_field
    is_byte_or_structure_field is_dynamic_byte_field
tlp_prefix_fields_test = refl

cxl_io_header_fields_test : check_if_fields_are_valid cxl_io_header_fields ≡ ok 32
unfolding check_if_fields_are_valid check_offsets check_field count_fields is_bit_field
    is_byte_or_structure_field is_dynamic_byte_field
cxl_io_header_fields_test = refl

cxl_io_mreq_header_fields_test : check_if_fields_are_valid cxl_io_mreq_header_fields ≡ ok 96
unfolding check_if_fields_are_valid check_offsets check_field count_fields is_bit_field
    is_byte_or_structure_field is_dynamic_byte_field
cxl_io_mreq_header_fields_test = refl

cxl_io_cfg_req_header_fields_test : check_if_fields_are_valid cxl_io_cfg_req_header_fields ≡ ok 64
unfolding check_if_fields_are_valid check_offsets check_field count_fields is_bit_field
    is_byte_or_structure_field is_dynamic_byte_field
cxl_io_cfg_req_header_fields_test = refl

cxl_io_completion_header_fields_test :
    check_if_fields_are_valid cxl_io_completion_header_fields ≡ ok 64
unfolding check_if_fields_are_valid check_offsets check_field count_fields is_bit_field
    is_byte_or_structure_field is_dynamic_byte_field
cxl_io_completion_header_fields_test = refl

cxl_cache_header_packet_fields_test :
    check_if_fields_are_valid cxl_cache_header_packet_fields ≡ ok 2
unfolding check_if_fields_are_valid check_offsets check_field count_fields is_bit_field
    is_byte_or_structure_field is_dynamic_byte_field
cxl_cache_header_packet_fields_test = refl

cxl_cache_d2h_req_header_fields_test :
    check_if_fields_are_valid cxl_cache_d2h_req_header_fields ≡ ok 72
unfolding check_if_fields_are_valid check_offsets check_field count_fields is_bit_field
    is_byte_or_structure_field is_dynamic_byte_field
cxl_cache_d2h_req_header_fields_test = refl

cxl_cache_d2h_rsp_header_fields_test :
    check_if_fields_are_valid cxl_cache_d2h_rsp_header_fields ≡ ok 24
unfolding check_if_fields_are_valid check_offsets check_field count_fields is_bit_field
    is_byte_or_structure_field is_dynamic_byte_field
cxl_cache_d2h_rsp_header_fields_test = refl

cxl_cache_d2h_data_header_fields_test :
    check_if_fields_are_valid cxl_cache_d2h_data_header_fields ≡ ok 24
unfolding check_if_fields_are_valid check_offsets check_field count_fields is_bit_field
    is_byte_or_structure_field is_dynamic_byte_field
cxl_cache_d2h_data_header_fields_test = refl

cxl_cache_h2d_req_header_fields_test :
    check_if_fields_are_valid cxl_cache_h2d_req_header_fields ≡ ok 72
unfolding check_if_fields_are_valid check_offsets check_field count_fields is_bit_field
    is_byte_or_structure_field is_dynamic_byte_field
cxl_cache_h2d_req_header_fields_test = refl

cxl_cache_h2d_rsp_header_fields_test :
    check_if_fields_are_valid cxl_cache_h2d_rsp_header_fields ≡ ok 40
unfolding check_if_fields_are_valid check_offsets check_field count_fields is_bit_field
    is_byte_or_structure_field is_dynamic_byte_field
cxl_cache_h2d_rsp_header_fields_test = refl

cxl_cache_h2d_data_header_fields_test :
    check_if_fields_are_valid cxl_cache_h2d_data_header_fields ≡ ok 24
unfolding check_if_fields_are_valid check_offsets check_field count_fields is_bit_field
    is_byte_or_structure_field is_dynamic_byte_field
cxl_cache_h2d_data_header_fields_test = refl

cxl_mem_header_packet_fields_test : check_if_fields_are_valid cxl_mem_header_packet_fields ≡ ok 2
unfolding check_if_fields_are_valid check_offsets check_field count_fields is_bit_field
    is_byte_or_structure_field is_dynamic_byte_field
cxl_mem_header_packet_fields_test = refl

cxl_mem_m2s_req_header_fields_test :
    check_if_fields_are_valid cxl_mem_m2s_req_header_fields ≡ ok 104
unfolding check_if_fields_are_valid check_offsets check_field count_fields is_bit_field
    is_byte_or_structure_field is_dynamic_byte_field
cxl_mem_m2s_req_header_fields_test = refl

cxl_mem_m2s_rwd_header_fields_test :
    check_if_fields_are_valid cxl_mem_m2s_rwd_header_fields ≡ ok 104
unfolding check_if_fields_are_valid check_offsets check_field count_fields is_bit_field
    is_byte_or_structure_field is_dynamic_byte_field
cxl_mem_m2s_rwd_header_fields_test = refl

cxl_mem_m2s_birsp_header_fields_test :
    check_if_fields_are_valid cxl_mem_m2s_birsp_header_fields ≡ ok 40
unfolding check_if_fields_are_valid check_offsets check_field count_fields is_bit_field
    is_byte_or_structure_field is_dynamic_byte_field
cxl_mem_m2s_birsp_header_fields_test = refl

cxl_mem_s2m_bisnp_header_fields_test :
    check_if_fields_are_valid cxl_mem_s2m_bisnp_header_fields ≡ ok 80
unfolding check_if_fields_are_valid check_offsets check_field count_fields is_bit_field
    is_byte_or_structure_field is_dynamic_byte_field
cxl_mem_s2m_bisnp_header_fields_test = refl

cxl_mem_s2m_ndr_header_fields_test : check_if_fields_are_valid cxl_mem_s2m_ndr_header_fields ≡ ok 40
unfolding check_if_fields_are_valid check_offsets check_field count_fields is_bit_field
    is_byte_or_structure_field is_dynamic_byte_field
cxl_mem_s2m_ndr_header_fields_test = refl

cxl_mem_s2m_drs_header_fields_test : check_if_fields_are_valid cxl_mem_s2m_drs_header_fields ≡ ok 40
unfolding check_if_fields_are_valid check_offsets check_field count_fields is_bit_field
    is_byte_or_structure_field is_dynamic_byte_field
cxl_mem_s2m_drs_header_fields_test = refl

cci_header_packet_fields_test : check_if_fields_are_valid cci_header_packet_fields ≡ ok 2
unfolding check_if_fields_are_valid check_offsets check_field count_fields is_bit_field
    is_byte_or_structure_field is_dynamic_byte_field
cci_header_packet_fields_test = refl

cci_message_header_packet_fields_test :
    check_if_fields_are_valid cci_message_header_packet_fields ≡ ok 96
unfolding check_if_fields_are_valid check_offsets check_field count_fields is_bit_field
    is_byte_or_structure_field is_dynamic_byte_field
cci_message_header_packet_fields_test = refl

cci_request_header_fields_test : check_if_fields_are_valid cci_request_header_fields ≡ ok 32
unfolding check_if_fields_are_valid check_offsets check_field count_fields is_bit_field
    is_byte_or_structure_field is_dynamic_byte_field
cci_request_header_fields_test = refl

get_ld_allocations_request_payload_fields_test :
    check_if_fields_are_valid get_ld_allocations_request_payload_fields ≡ ok 16
unfolding check_if_fields_are_valid check_offsets check_field count_fields is_bit_field
    is_byte_or_structure_field is_dynamic_byte_field
get_ld_allocations_request_payload_fields_test = refl

set_ld_allocations_request_payload_fields_test :
    check_if_fields_are_valid set_ld_allocations_request_payload_fields ≡ ok 32
unfolding check_if_fields_are_valid check_offsets check_field count_fields is_bit_field
    is_byte_or_structure_field is_dynamic_byte_field
set_ld_allocations_request_payload_fields_test = refl

cci_response_header_fields_test : check_if_fields_are_valid cci_response_header_fields ≡ ok 32
unfolding check_if_fields_are_valid check_offsets check_field count_fields is_bit_field
    is_byte_or_structure_field is_dynamic_byte_field
cci_response_header_fields_test = refl

get_ld_info_response_payload_fields_test :
    check_if_fields_are_valid get_ld_info_response_payload_fields ≡ ok 88
unfolding check_if_fields_are_valid check_offsets check_field count_fields is_bit_field
    is_byte_or_structure_field is_dynamic_byte_field
get_ld_info_response_payload_fields_test = refl

get_ld_allocations_response_payload_fields_test :
    check_if_fields_are_valid get_ld_allocations_response_payload_fields ≡ ok 96
unfolding check_if_fields_are_valid check_offsets check_field count_fields is_bit_field
    is_byte_or_structure_field is_dynamic_byte_field
get_ld_allocations_response_payload_fields_test = refl

set_ld_allocations_response_payload_fields_test :
    check_if_fields_are_valid set_ld_allocations_response_payload_fields ≡ ok 32
unfolding check_if_fields_are_valid check_offsets check_field count_fields is_bit_field
    is_byte_or_structure_field is_dynamic_byte_field
set_ld_allocations_response_payload_fields_test = refl

-- ===== src/Tests/Hdm.antt =====
-- opencxl/cxl/component/hdm_decoder.py at concrete decoders: two managers with two decoders, a
-- range interleaved over two devices at 256 bytes, and one over three.
use opencxl_core.Prelude.{
  ℕ, ◌+◌, ◌^◌, ◌%◌, ◌/◌, ◌≤◌, ◌≡◌, refl, arith, true, false, [], ◌∷◌, none, some, ◌↔◌, length,
  get_elem?, ok, err, index_error,
}
use opencxl_core.Hdm.Decoder
use opencxl_core.Hdm.Decoder.{
  HdmDecoderCount, InterleaveGranularity, InterleaveWays, size_256b, way_1, way_2, way_3,
  HdmDecoderBase, count_to_num, granularity_value, ways_value, iw_to_ways, DeviceHdmDecoder,
  SwitchHdmDecoder, target_index, get_bit_range, is_hpa_in_range, get_decoder_count, granularity_of,
  ways_of,
}
use opencxl_core.Hdm.Manager.{
  HdmDecoderCapabilities, DecoderInfo, HdmDecoderManager, first_in_range, new_device_manager,
  commit_device, commit_switch, get_dpa, get_hpa,
}
use opencxl_core.Hdm.Interleave.{granule, interleaved, get_dpa-interleaved}
use opencxl_core.Hdm.Aliasing.{target-dpa_injective}
use opencxl_core.Hdm.Translate.{
  new_device_manager_lem, commit_switch_out_of_range, get_dpa-commit_device, get_hpa-get_dpa,
}
use opencxl_core.Hdm.Route.{get_target_power_of_two, get_target_three_ways}

abbrev two_ways : HdmDecoderBase
two_ways = record { index = 0; size = 0x10000; base = 0x1000; ig = size_256b; iw = way_2 }

abbrev three_ways : HdmDecoderBase
three_ways = record two_ways { iw = way_3 }

abbrev device : DeviceHdmDecoder
device = record { decoder = two_ways; dpa_base = 0x100; dpa_skip = 0 }

abbrev switch : SwitchHdmDecoder
switch = record { decoder = two_ways; target_ports = 4 ∷ 7 ∷ [] }

abbrev switch_three : SwitchHdmDecoder
switch_three = record { decoder = three_ways; target_ports = 4 ∷ 7 ∷ 9 ∷ [] }

abbrev caps : HdmDecoderCapabilities
caps = record { decoder_count = HdmDecoderCount.decoder_2; uio_capable = 0; bi_capable = false }

abbrev idle : HdmDecoderBase
idle = record { index = 0; size = 0; base = 0; ig = size_256b; iw = way_1 }

abbrev devices : HdmDecoderManager DeviceHdmDecoder
devices = record {
  capabilities = caps;
  decoders =
      record { decoder = idle; dpa_base = 0; dpa_skip = 0 }
      ∷ record { decoder = record idle { index = 1 }; dpa_base = 0; dpa_skip = 0 }
      ∷ [];
}

abbrev switches : HdmDecoderManager SwitchHdmDecoder
switches = record {
  capabilities = caps;
  decoders = record { decoder = idle; target_ports = [] } ∷ [];
}

abbrev info : DecoderInfo
info = record { size = 0x10000; base = 0x1000; dpa_skip = 0; ig = 0; iw = 1; target_ports = [] }

abbrev place : ℕ
place = 0x1334

-- Address 0x1334 is in the fourth granule of the range, which is the second of its device.
device_test : Decoder.get_dpa device 0x1334 ≡ 0x234
unfolding Decoder.get_dpa Decoder.offset_bits get_bit_range
device_test = refl

switch_test : Decoder.get_target switch 0x1100 ≡ ok 7
unfolding Decoder.get_target target_index
switch_test = refl

get_dpa-interleaved_example :
    Decoder.get_dpa device 0x1334 ≡ interleaved size_256b way_2 0x334 + 0x100
get_dpa-interleaved_example = get_dpa-interleaved device 0x1334 (omega arith) (omega arith)

target-dpa_injective_example : place ≡ place
unfolding Decoder.get_dpa Decoder.offset_bits get_bit_range target_index
target-dpa_injective_example =
    target-dpa_injective switch device place place refl refl (omega arith) refl (omega arith)
      (omega arith) (omega arith) (omega arith) refl refl

get_dpa-commit_device_example :
    ((commit_device devices 1 info).1 ≡ ok true)
    × (get_dpa (commit_device devices 1 info).0 0x1334 ≡ some (interleaved size_256b way_2 0x334))
unfolding first_in_range is_hpa_in_range
get_dpa-commit_device_example =
    get_dpa-commit_device devices 1 info size_256b way_2 0x1334 (omega arith) refl refl
      (omega arith) (omega arith) refl (omega arith)

get_hpa-get_dpa_example :
    (dpa : ℕ) × (get_dpa (commit_device devices 0 (record info { iw = 0 })).0 0x1334 ≡ some dpa)
    × (get_hpa (commit_device devices 0 (record info { iw = 0 })).0 dpa ≡ some 0x1334)
get_hpa-get_dpa_example =
    get_hpa-get_dpa devices (record info { iw = 0 }) size_256b 0x1334 (omega arith) refl refl
      (omega arith) (omega arith) (omega arith)

get_target_power_of_two_example :
    (port : ℕ) × (Decoder.get_target switch 0x1100 ≡ ok port)
    × (get_elem? (4 ∷ 7 ∷ []) (0x1100 / granule size_256b % iw_to_ways way_2) ≡ some port)
unfolding iw_to_ways
get_target_power_of_two_example = get_target_power_of_two switch 0x1100 (omega arith) refl

get_target_three_ways_example :
    (Decoder.get_target switch_three 0x1300 ≡ err index_error)
    ↔ (iw_to_ways way_3 ≤ 0x1300 / granule size_256b % 2 ^ 8)
unfolding iw_to_ways
get_target_three_ways_example = get_target_three_ways switch_three 0x1300 (omega arith) refl

commit_switch_out_of_range_example : commit_switch switches 1 info ≡ (switches, err index_error)
commit_switch_out_of_range_example = commit_switch_out_of_range switches 1 info (omega arith)

new_device_manager_lem_test :
    (m : HdmDecoderManager DeviceHdmDecoder) × (new_device_manager caps ≡ ok m)
    × (length m.decoders ≡ count_to_num HdmDecoderCount.decoder_2)
    × ((hpa : ℕ) → get_dpa m hpa ≡ none)
new_device_manager_lem_test = new_device_manager_lem caps

-- ===== src/Hdm/Decoder.antt =====
-- opencxl/cxl/component/hdm_decoder.py: the enumerations, and one decoder of a device or a switch.
-- Addresses are the source's integers, none of which is negative. An enumeration's value is what
-- the source computes with where it writes `self.ig + 8`, so `ig` and `iw` read it by `.value`.
use Prim.Native.Nat.{bit_and, bit_or}
use opencxl_core.Prelude.{
  ℕ, ◌+◌, ◌-◌, ◌*◌, ◌/◌, ◌%◌, ◌^◌, Bool, ◌&&◌, List, none, some, if◌then◌else◌, ltb, leb, ◌==◌,
  get_elem?, Result, ok, err, index_error, value_error, exception,
}
use opencxl_core.Prelude.Bits.{shl, shr}

pub data HdmDecoderCount : Type 0 where
  decoder_1 decoder_2 decoder_4 decoder_6 decoder_8 decoder_10 decoder_12 : HdmDecoderCount
  decoder_14 decoder_16 decoder_20 decoder_24 decoder_28 decoder_32 : HdmDecoderCount

pub data InterleaveGranularity : Type 0 where
  size_256b size_512b size_1kb size_2kb size_4kb size_8kb size_16kb : InterleaveGranularity

pub data InterleaveWays : Type 0 where
  way_1 way_2 way_4 way_8 way_16 way_3 way_6 way_12 : InterleaveWays

pub InterleaveWays-discrete : Discrete InterleaveWays
InterleaveWays-discrete = hlevel

-- The values of the three enumerations.
abbrev pub count_value : HdmDecoderCount → ℕ
count_value decoder_1 = 0x0
count_value decoder_2 = 0x1
count_value decoder_4 = 0x2
count_value decoder_6 = 0x3
count_value decoder_8 = 0x4
count_value decoder_10 = 0x5
count_value decoder_12 = 0x6
count_value decoder_14 = 0x7
count_value decoder_16 = 0x8
count_value decoder_20 = 0x9
count_value decoder_24 = 0xa
count_value decoder_28 = 0xb
count_value decoder_32 = 0xc

abbrev pub granularity_value : InterleaveGranularity → ℕ
granularity_value size_256b = 0x0
granularity_value size_512b = 0x1
granularity_value size_1kb = 0x2
granularity_value size_2kb = 0x3
granularity_value size_4kb = 0x4
granularity_value size_8kb = 0x5
granularity_value size_16kb = 0x6

abbrev pub ways_value : InterleaveWays → ℕ
ways_value way_1 = 0x0
ways_value way_2 = 0x1
ways_value way_4 = 0x2
ways_value way_8 = 0x3
ways_value way_16 = 0x4
ways_value way_3 = 0x8
ways_value way_6 = 0x9
ways_value way_12 = 0xa

-- `HDM_COUNT_TO_NUM.calc` and `IW_TO_WAYS.calc`: the number that ends the member's name.
unfoldable pub count_to_num : HdmDecoderCount → ℕ
count_to_num decoder_1 = 1
count_to_num decoder_2 = 2
count_to_num decoder_4 = 4
count_to_num decoder_6 = 6
count_to_num decoder_8 = 8
count_to_num decoder_10 = 10
count_to_num decoder_12 = 12
count_to_num decoder_14 = 14
count_to_num decoder_16 = 16
count_to_num decoder_20 = 20
count_to_num decoder_24 = 24
count_to_num decoder_28 = 28
count_to_num decoder_32 = 32

unfoldable pub iw_to_ways : InterleaveWays → ℕ
iw_to_ways way_1 = 1
iw_to_ways way_2 = 2
iw_to_ways way_4 = 4
iw_to_ways way_8 = 8
iw_to_ways way_16 = 16
iw_to_ways way_3 = 3
iw_to_ways way_6 = 6
iw_to_ways way_12 = 12

-- `INTERLEAVE_GRANULARITY(value)` and `INTERLEAVE_WAYS(value)`: the member with the value, or
-- `ValueError`.
unfoldable pub granularity_of : ℕ → Result InterleaveGranularity
granularity_of v =
    if v == 0
    then ok size_256b
    else if v == 1
    then ok size_512b
    else if v == 2
    then ok size_1kb
    else if v == 3
    then ok size_2kb
    else if v == 4
    then ok size_4kb
    else if v == 5
    then ok size_8kb
    else if v == 6
    then ok size_16kb
    else err value_error

unfoldable pub ways_of : ℕ → Result InterleaveWays
ways_of v =
    if v == 0
    then ok way_1
    else if v == 1
    then ok way_2
    else if v == 2
    then ok way_4
    else if v == 3
    then ok way_8
    else if v == 4
    then ok way_16
    else if v == 8
    then ok way_3
    else if v == 9
    then ok way_6
    else if v == 0xa
    then ok way_12
    else err value_error

-- `HdmDecoderManagerBase.get_decoder_count`.
unfoldable pub get_decoder_count : ℕ → Result ℕ
get_decoder_count v =
    if v == 0
    then ok 1
    else if leb 1 v && leb v 8
    then ok (v * 2)
    else if leb 9 v && leb v 0x0c
    then ok ((v - 9) * 4 + 20)
    else err exception

pub record HdmDecoderBase : Type 0 where
  pub index : ℕ
  pub size : ℕ
  pub base : ℕ
  pub ig : InterleaveGranularity
  pub iw : InterleaveWays

unfoldable pub is_hpa_in_range : HdmDecoderBase → ℕ → Bool
is_hpa_in_range d hpa = leb d.base hpa && ltb hpa (d.base + d.size)

pub record DeviceHdmDecoder : Type 0 where
  pub decoder : HdmDecoderBase
  pub dpa_base : ℕ
  pub dpa_skip : ℕ

-- The source's width is `end_bit - start_bit + 1`; no call has `start_bit` above `end_bit + 1`.
unfoldable pub get_bit_range : ℕ → ℕ → ℕ → ℕ
get_bit_range number start_bit end_bit =
    let mask = shl 1 (end_bit + 1 - start_bit) - 1 in
    let shifted_number = shr number start_bit in bit_and shifted_number mask

-- The bits 0 to 51 of `hpa - self.base`, which is negative for an address below the base, and then
-- has the bits of its complement to a power of two. `get_dpa` reads no other bits of it.
unfoldable pub offset_bits : ℕ → ℕ → ℕ
offset_bits hpa base = if leb base hpa then hpa - base else 2 ^ 52 - (base - hpa) % 2 ^ 52

-- `DeviceHdmDecoder.get_dpa`.
unfoldable pub get_dpa : DeviceHdmDecoder → ℕ → ℕ
unfolding offset_bits
get_dpa d hpa =
    let ig = granularity_value d.decoder.ig in
    let iw = ways_value d.decoder.iw in
    let hpa_offset = offset_bits hpa d.decoder.base in
    let dpa_offset_low = get_bit_range hpa_offset 0 (ig + 7) in
    let dpa_offset_high =
      if ltb iw 8
      then get_bit_range hpa_offset (ig + 8 + iw) 51
      else get_bit_range hpa_offset (ig + iw) 51 / 3 in
    let dpa_offset = bit_or dpa_offset_low (shl dpa_offset_high (ig + 8)) in dpa_offset + d.dpa_base

-- `DeviceHdmDecoder.get_hpa`.
unfoldable pub get_hpa : DeviceHdmDecoder → ℕ → ℕ
get_hpa d dpa = dpa + d.decoder.base

pub record SwitchHdmDecoder : Type 0 where
  pub decoder : HdmDecoderBase
  pub target_ports : List ℕ

-- `SwitchHdmDecoder.get_target`: the index that it computes, and the port at that index.
unfoldable pub target_index : SwitchHdmDecoder → ℕ → ℕ
target_index d hpa =
    let decoded_ig = shl 1 (granularity_value d.decoder.ig + 8) in
    let decoded_iw = shl 1 (ways_value d.decoder.iw) in hpa / decoded_ig % decoded_iw

unfoldable pub get_target : SwitchHdmDecoder → ℕ → Result ℕ
get_target d hpa = elim (get_elem? d.target_ports (target_index d hpa)) [
  | none ↦ err index_error
  | some port ↦ ok port
]

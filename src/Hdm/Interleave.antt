-- ===== src/Hdm/Interleave.antt =====
-- Interleaving in opencxl/cxl/component/hdm_decoder.py: what `get_dpa` and `get_target` compute,
-- as division and remainder, and how the two together address a device.
use Prim.Native.Nat.{bit_or}
use native.Mathlib.Nat.{
  div-div-eq-div-mul, mod-eq_of_lt, one-le-pow, mod-lt, div-one, mul_assoc, one-mul,
}
use opencxl_core.Prelude.{
  ℕ, ◌+◌, ◌-◌, ◌*◌, ◌/◌, ◌%◌, ◌^◌, ◌≤◌, ◌<◌, ◌≡◌, refl, ap, ap₂, ◌∙◌, arith, ltb, if◌then◌else◌,
}
use opencxl_core.Prelude.Bits.{shr, bit_and-low_mask, bit_or-shl_right, pow_add, shr-lt}
use opencxl_core.Hdm.Decoder.{
  InterleaveGranularity, InterleaveWays, way_1, way_2, way_4, way_8, way_16, way_3, way_6, way_12,
  granularity_value, ways_value, iw_to_ways, DeviceHdmDecoder, get_bit_range, get_dpa, offset_bits,
  SwitchHdmDecoder, target_index,
}

-- The bytes of one interleave granule.
abbrev pub granule : InterleaveGranularity → ℕ
granule ig = 2 ^ (granularity_value ig + 8)

pub granule_pos : (ig : InterleaveGranularity) → 0 < granule ig
granule_pos ig = one-le-pow (granularity_value ig + 8) 2 (omega arith)

-- The specification of a device's part of an interleaved range: granule `n * ways + position` of
-- the range is granule `n` of the device, and the place inside a granule is kept.
abbrev pub interleaved : InterleaveGranularity → InterleaveWays → ℕ → ℕ
interleaved ig iw offset = offset / (granule ig * iw_to_ways iw) * granule ig + offset % granule ig

get_bit_range_lem :
    (n start end : ℕ) → get_bit_range n start end ≡ shr n start % 2 ^ (end + 1 - start)
unfolding get_bit_range
get_bit_range_lem n start end = bit_and-low_mask (end + 1 - start) (shr n start)

-- Bits `start` to 51 of a number below `2 ^ 52` are all of its bits from `start` on.
high_bits : (n start : ℕ) → n < 2 ^ 52 → start ≤ 52 → get_bit_range n start 51 ≡ shr n start
high_bits n start h p =
    let all : start + (52 - start) ≡ 52 = omega arith in
    get_bit_range_lem n start 51 ∙ mod-eq_of_lt (shr-lt n start (52 - start) (rw all h))

shr-granules :
    (ig : InterleaveGranularity) (k n : ℕ)
    → shr n (granularity_value ig + 8 + k) ≡ n / (granule ig * 2 ^ k)
shr-granules ig k n = rw pow_add

granularity_small : (ig : InterleaveGranularity) → granularity_value ig ≤ 6
granularity_small ig = ground arith

power_of_two_part :
    (ig : InterleaveGranularity) (n start k : ℕ)
    → n < 2 ^ 52
    → k ≤ 4
    → start ≡ granularity_value ig + 8 + k
    → get_bit_range n start 51 ≡ n / (granule ig * 2 ^ k)
power_of_two_part ig n start k h p e =
    high_bits n start h (omega (arith, granularity_small ig)) ∙ ap (shr n) e ∙ shr-granules ig k n

three_part :
    (ig : InterleaveGranularity) (n start k : ℕ)
    → n < 2 ^ 52
    → k ≤ 4
    → start ≡ granularity_value ig + 8 + k
    → get_bit_range n start 51 / 3 ≡ n / (granule ig * (2 ^ k * 3))
three_part ig n start k h p e =
    ap (λ t. t / 3) (power_of_two_part ig n start k h p e)
    ∙ div-div-eq-div-mul n (granule ig * 2 ^ k) 3
    ∙ ap (λ t. n / t) (mul_assoc (granule ig) (2 ^ k) 3)

-- The upper part of the device's offset, whichever way the source computes it.
abbrev high_part : InterleaveGranularity → InterleaveWays → ℕ → ℕ
high_part ig iw n =
    if ltb (ways_value iw) 8
    then get_bit_range n (granularity_value ig + 8 + ways_value iw) 51
    else get_bit_range n (granularity_value ig + ways_value iw) 51 / 3

high_part_lem :
    (ig : InterleaveGranularity) (iw : InterleaveWays) (n : ℕ)
    → n < 2 ^ 52
    → high_part ig iw n ≡ n / (granule ig * iw_to_ways iw)
unfolding iw_to_ways
high_part_lem ig way_3 n h = three_part ig n _ 0 h (omega arith) (omega arith)
high_part_lem ig way_6 n h = three_part ig n _ 1 h (omega arith) (omega arith)
high_part_lem ig way_12 n h = three_part ig n _ 2 h (omega arith) (omega arith)
high_part_lem ig way_1 n h = power_of_two_part ig n _ 0 h (omega arith) refl
high_part_lem ig way_2 n h = power_of_two_part ig n _ 1 h (omega arith) refl
high_part_lem ig way_4 n h = power_of_two_part ig n _ 2 h (omega arith) refl
high_part_lem ig way_8 n h = power_of_two_part ig n _ 3 h (omega arith) refl
high_part_lem ig way_16 n h = power_of_two_part ig n _ 4 h (omega arith) refl

low_part_lem :
    (ig : InterleaveGranularity) (n : ℕ)
    → get_bit_range n 0 (granularity_value ig + 7) ≡ n % granule ig
low_part_lem ig n =
    let width : granularity_value ig + 7 + 1 - 0 ≡ granularity_value ig + 8 = omega arith in
    get_bit_range_lem n 0 (granularity_value ig + 7) ∙ ap₂ (λ a b. a % 2 ^ b) (div-one n) width

-- A device maps an address of its range, from the base on, at an offset below 2 ^ 52 to its part of the interleaved range, in
-- each of the seven granularities and the eight numbers of ways.
pub get_dpa-interleaved :
    (d : DeviceHdmDecoder) (hpa : ℕ)
    → d.decoder.base ≤ hpa
    → hpa - d.decoder.base < 2 ^ 52
    → get_dpa d hpa ≡ interleaved d.decoder.ig d.decoder.iw (hpa - d.decoder.base) + d.dpa_base
unfolding get_dpa offset_bits
get_dpa-interleaved d hpa low h =
    let ig = d.decoder.ig in
    let n = hpa - d.decoder.base in
    let q = n / (granule ig * iw_to_ways d.decoder.iw) in
    let r = n % granule ig in
    let fits : r < granule ig = mod-lt n (granule_pos ig) in
    let parts =
      ap₂ (λ lo hi. bit_or lo (hi * granule ig) + d.dpa_base) (low_part_lem ig n)
        (high_part_lem ig d.decoder.iw n h) in
    let joined = bit_or-shl_right (granularity_value ig + 8) q r fits in
    let above : offset_bits hpa d.decoder.base ≡ n = ground arith in
    rw above (parts ∙ omega (arith, joined))

-- What the switch takes for the position: the granule's number in the whole address space.
pub target_index_lem :
    (d : SwitchHdmDecoder) (hpa : ℕ)
    → target_index d hpa ≡ hpa / granule d.decoder.ig % 2 ^ ways_value d.decoder.iw
unfolding target_index
target_index_lem d hpa = rw (one-mul, one-mul)

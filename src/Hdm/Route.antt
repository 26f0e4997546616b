-- ===== src/Hdm/Route.antt =====
-- opencxl/cxl/component/hdm_decoder.py: to which port a switch's decoder sends an address.
use native.Mathlib.Nat.{mod-lt, one-le-pow}
use native.Mathlib.Decide.{dec_le}
use opencxl_core.Prelude.{
  ℕ, ◌/◌, ◌%◌, ◌^◌, ◌≤◌, ◌<◌, ◌≡◌, sym, ap, ◌∙◌, ◌↔◌, arith, some, length, get_elem?,
  get_elem?_of_lt, get_elem?_of_le, ok, err, index_error,
}
use opencxl_core.Hdm.Decoder.{ways_value, iw_to_ways, SwitchHdmDecoder, target_index, get_target}
use opencxl_core.Hdm.Interleave.{granule, target_index_lem}
use opencxl_core.Hdm.Aliasing.{pow_ways}

-- With 1, 2, 4, 8 or 16 ways and a port for each, every address has a port: that of its granule's
-- number, counted round the ports.
pub get_target_power_of_two :
    (d : SwitchHdmDecoder) (hpa : ℕ)
    → ways_value d.decoder.iw < 8
    → length d.target_ports ≡ iw_to_ways d.decoder.iw
    → (port : ℕ) × (get_target d hpa ≡ ok port)
      × (get_elem? d.target_ports (hpa / granule d.decoder.ig % iw_to_ways d.decoder.iw)
          ≡ some port)
unfolding get_target
get_target_power_of_two d hpa pow ports =
    let ways = pow_ways d.decoder.iw pow in
    let place = target_index_lem d hpa in
    let below =
      mod-lt (hpa / granule d.decoder.ig) (one-le-pow (ways_value d.decoder.iw) 2 (omega arith)) in
    let (port, found) = get_elem?_of_lt d.target_ports (target_index d hpa) (omega arith) in
    let index = ap (λ w. hpa / granule d.decoder.ig % w) ways ∙ sym place in
    (port, ground arith, ap (get_elem? d.target_ports) index ∙ found)

-- With 3, 6 or 12 ways and a port for each, the source still counts round `1 << iw` positions
-- (256, 512 and 1024), and raises `IndexError` at exactly the granules that land beyond the ports.
pub get_target_three_ways :
    (d : SwitchHdmDecoder) (hpa : ℕ)
    → 8 ≤ ways_value d.decoder.iw
    → length d.target_ports ≡ iw_to_ways d.decoder.iw
    → (get_target d hpa ≡ err index_error)
      ↔ (iw_to_ways d.decoder.iw ≤ hpa / granule d.decoder.ig % 2 ^ ways_value d.decoder.iw)
unfolding get_target
get_target_three_ways d hpa three ports =
    let place = target_index_lem d hpa in
    (
      λ h. elim (dec_le (iw_to_ways d.decoder.iw) (target_index d hpa)) [
        | yes p ↦ omega arith
        | no p ↦
            let (port, found) = get_elem?_of_lt d.target_ports (target_index d hpa) (omega arith) in
            absurd (ground arith)
      ],
      λ h. ground (arith, get_elem?_of_le d.target_ports (target_index d hpa)),
    )

-- ===== src/Pci/Bdf.antt =====
-- opencxl/util/pci.py: a bus, a device and a function number in one 16-bit number, the BDF.
-- `bdf_to_string` is left out.
use Prim.Native.Nat.{bit_and, bit_or}
use mathlib.Core.List.{flat_map}
use opencxl_core.Prelude.{
  ℕ, ◌+◌, ◌*◌, ◌/◌, ◌%◌, ◌^◌, ◌<◌, ◌≡◌, refl, sym, ap, ◌∙◌, arith, List, some, map, length,
  get_elem?, range, get_elem?-map-range,
}
use opencxl_core.Prelude.Bits.{shl, shr, bit_or-shl, bit_and-low_mask}

unfoldable pub create_bdf : ℕ → ℕ → ℕ → ℕ
create_bdf bus device function = bit_or (bit_or (shl bus 8) (shl device 3)) function

unfoldable pub extract_device_from_bdf : ℕ → ℕ
extract_device_from_bdf bdf = bit_and (shr bdf 3) 0x1f

unfoldable pub extract_bus_from_bdf : ℕ → ℕ
extract_bus_from_bdf bdf = bit_and (shr bdf 8) 0xff

unfoldable pub extract_function_from_bdf : ℕ → ℕ
extract_function_from_bdf bdf = bit_and bdf 0x07

-- The two nested loops over `range(0x20)` and `range(0x8)`.
unfoldable pub generate_bdfs_for_bus : ℕ → List ℕ
generate_bdfs_for_bus bus =
    flat_map
      (λ device.
        map (λ function. bit_or (bit_or (shl bus 8) (shl device 3)) function) (range 0 0x8))
      (range 0 0x20)

pub extract_device_lem : (bdf : ℕ) → extract_device_from_bdf bdf ≡ bdf / 8 % 32
unfolding extract_device_from_bdf
extract_device_lem bdf = bit_and-low_mask 5 (bdf / 8)

pub extract_bus_lem : (bdf : ℕ) → extract_bus_from_bdf bdf ≡ bdf / 256 % 256
unfolding extract_bus_from_bdf
extract_bus_lem bdf = bit_and-low_mask 8 (bdf / 256)

extract_function_lem : (bdf : ℕ) → extract_function_from_bdf bdf ≡ bdf % 8
unfolding extract_function_from_bdf
extract_function_lem bdf = bit_and-low_mask 3 bdf

create_bdf_lem :
    (bus device function : ℕ)
    → device < 32
    → function < 8
    → create_bdf bus device function ≡ bus * 256 + device * 8 + function
unfolding create_bdf
create_bdf_lem bus device function h p =
    let places = bit_or-shl 8 bus (shl device 3) (omega arith) in
    let fields : shl (bus * 32 + device) 3 ≡ shl bus 8 + shl device 3 = omega arith in
    ap (λ t. bit_or t function) (places ∙ sym fields)
    ∙ bit_or-shl 3 (bus * 32 + device) function p
    ∙ omega arith

-- The three numbers come back from the BDF that they make.
pub extract-create_bdf :
    (bus device function : ℕ)
    → bus < 256
    → device < 32
    → function < 8
    → (extract_bus_from_bdf (create_bdf bus device function) ≡ bus)
      × (extract_device_from_bdf (create_bdf bus device function) ≡ device)
      × (extract_function_from_bdf (create_bdf bus device function) ≡ function)
extract-create_bdf bus device function b d f =
    let made = create_bdf_lem bus device function d f in
    let bdf = create_bdf bus device function in
    (
      omega (arith, extract_bus_lem bdf, made),
      omega (arith, extract_device_lem bdf, made),
      omega (arith, extract_function_lem bdf, made),
    )

-- Every number of 16 bits is the BDF that its bus, its device and its function make.
pub create_bdf-extract :
    (bdf : ℕ)
    → bdf < 2 ^ 16
    → create_bdf
        (extract_bus_from_bdf bdf)
        (extract_device_from_bdf bdf)
        (extract_function_from_bdf bdf)
      ≡ bdf
create_bdf-extract bdf h =
    let bus = extract_bus_lem bdf in
    let device = extract_device_lem bdf in
    let function = extract_function_lem bdf in
    let made =
      create_bdf_lem (extract_bus_from_bdf bdf) (extract_device_from_bdf bdf)
        (extract_function_from_bdf bdf) (omega arith) (omega arith) in
    omega arith

generated :
    (bus : ℕ) → generate_bdfs_for_bus bus ≡ map (λ k. create_bdf bus (k / 8) (k % 8)) (range 0 256)
unfolding generate_bdfs_for_bus create_bdf flat_map
generated bus = refl

-- The BDFs of a bus, in order: entry `i`, below 256, is that of device `i / 8` and function `i % 8`,
-- and there are 256 of them.
pub generate_bdfs_for_bus_lem :
    (bus i : ℕ)
    → i < 256
    → (length (generate_bdfs_for_bus bus) ≡ 256)
      × (get_elem? (generate_bdfs_for_bus bus) i ≡ some (create_bdf bus (i / 8) (i % 8)))
generate_bdfs_for_bus_lem bus i h =
    let entry = λ (k : ℕ). create_bdf bus (k / 8) (k % 8) in
    let start : 0 + i ≡ i = omega arith in
    (
      ap (λ l. length l) (generated bus) ∙ refl,
      ap (λ l. get_elem? l i) (generated bus)
          ∙ get_elem?-map-range entry 0 256 i h
          ∙ ap (λ k. some (entry k)) start,
    )

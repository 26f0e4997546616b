-- ===== src/Hdm/Aliasing.antt =====
-- opencxl/cxl/component/hdm_decoder.py: a switch and the devices below it, programmed alike, give
-- every address a place of its own.
use native.Mathlib.Nat.{div-add-mod, mul-le-mul_left, mod-lt, div-div-eq-div-mul, add-mul-div_left}
use native.Mathlib.Nat.{one-le-pow, mul-add-mod_self_right, mod-eq_of_lt, mul-div_cancel}
use native.Mathlib.Decide.{dec_le}
use opencxl_core.Prelude.{ℕ, ◌+◌, ◌-◌, ◌*◌, ◌/◌, ◌%◌, ◌^◌, ◌≤◌, ◌<◌, ◌≡◌, sym, ap, ap₂, ◌∙◌, arith}
use opencxl_core.Hdm.Decoder.{
  InterleaveWays, ways_value, iw_to_ways, DeviceHdmDecoder, get_dpa, SwitchHdmDecoder, target_index,
}
use opencxl_core.Hdm.Interleave.{granule, granule_pos, get_dpa-interleaved, target_index_lem}

-- Two numbers less than `w` apart with the same remainder by `w` are equal.
mod_close : (w x y : ℕ) → x ≤ y → y < x + w → x % w ≡ y % w → x ≡ y
mod_close w x y p q e =
    let xs = div-add-mod x w in
    let ys = div-add-mod y w in
    elim (dec_le (y / w) (x / w)) [
      | yes h ↦ omega (arith, mul-le-mul_left w h)
      | no h ↦
          let above : x / w + 1 ≤ y / w = omega arith in
          absurd (omega (arith, mul-le-mul_left w above))
    ]

-- The quotient and the remainder of `q * g + r` by `g` are `q` and `r`.
split_unique : (g q r q' r' : ℕ) → r < g → r' < g → q * g + r ≡ q' * g + r' → (q ≡ q') × (r ≡ r')
split_unique g q r q' r' h h' e =
    let rest : (a b : ℕ) → b < g → (a * g + b) % g ≡ b =
      λ a b p. mul-add-mod_self_right a g b ∙ mod-eq_of_lt p in
    let remainders = sym (rest q r h) ∙ ap (λ t. t % g) e ∙ rest q' r' h' in
    let products : q * g ≡ q' * g = omega (arith, remainders) in
    let quotients =
      sym (mul-div_cancel q {n = g} (omega arith))
      ∙ ap (λ t. t / g) products
      ∙ mul-div_cancel q' {n = g} (omega arith) in
    (quotients, remainders)

same_granule : (w c u u' : ℕ) → 0 < w → (u + c) % w ≡ (u' + c) % w → u / w ≡ u' / w → u ≡ u'
same_granule w c u u' pos e block =
    let above = div-add-mod u w in
    let above' = div-add-mod u' w in
    let same : w * (u / w) ≡ w * (u' / w) = ap (λ t. w * t) block in
    let near = mod-lt u pos in
    let near' = mod-lt u' pos in
    elim (dec_le u u') [
      | yes h ↦ omega (arith, mod_close w (u + c) (u' + c) (omega arith) (omega arith) e)
      | no h ↦ omega (arith, mod_close w (u' + c) (u + c) (omega arith) (omega arith) (sym e))
    ]

-- An offset is given by the place of its granule among `w`, the block of `w` granules, and the
-- place inside the granule; `base` shifts the numbering of the granules.
same_offset :
    (g w base n n' : ℕ)
    → 0 < g
    → 0 < w
    → base % g ≡ 0
    → (n + base) / g % w ≡ (n' + base) / g % w
    → n / (g * w) ≡ n' / (g * w)
    → n % g ≡ n' % g
    → n ≡ n'
same_offset g w base n n' gp wp aligned place block inside =
    let c = base / g in
    let whole : base ≡ g * c = omega (arith, div-add-mod base g) in
    let shifted : (k : ℕ) → (k + base) / g ≡ k / g + c =
      λ k. ap (λ t. (k + t) / g) whole ∙ add-mul-div_left k c gp in
    let places = sym (ap (λ t. t % w) (shifted n)) ∙ place ∙ ap (λ t. t % w) (shifted n') in
    let blocks = div-div-eq-div-mul n g w ∙ block ∙ sym (div-div-eq-div-mul n' g w) in
    let granules = same_granule w c (n / g) (n' / g) wp places blocks in
    omega (arith, div-add-mod n g, div-add-mod n' g, ap (λ t. g * t) granules)

pub pow_ways : (iw : InterleaveWays) → ways_value iw < 8 → iw_to_ways iw ≡ 2 ^ ways_value iw
unfolding iw_to_ways
pow_ways iw h = ground arith

-- With 1, 2, 4, 8 or 16 ways, and a base on a granule's boundary, two addresses of the range that
-- go to the same target and get the same device address there are one address.
pub target-dpa_injective :
    (s : SwitchHdmDecoder) (d : DeviceHdmDecoder) (hpa hpa' : ℕ)
    → s.decoder.ig ≡ d.decoder.ig
    → s.decoder.iw ≡ d.decoder.iw
    → ways_value d.decoder.iw < 8
    → d.decoder.base % granule d.decoder.ig ≡ 0
    → d.decoder.base ≤ hpa
    → d.decoder.base ≤ hpa'
    → hpa - d.decoder.base < 2 ^ 52
    → hpa' - d.decoder.base < 2 ^ 52
    → target_index s hpa ≡ target_index s hpa'
    → get_dpa d hpa ≡ get_dpa d hpa'
    → hpa ≡ hpa'
target-dpa_injective s d hpa hpa' ig iw pow aligned low low' fits fits' target dpa =
    let g = granule d.decoder.ig in
    let w = 2 ^ ways_value d.decoder.iw in
    let base = d.decoder.base in
    let n = hpa - base in
    let n' = hpa' - base in
    let ways = pow_ways d.decoder.iw pow in
    let place : (k : ℕ) → base ≤ k → target_index s k ≡ (k - base + base) / g % w = λ k h.
      target_index_lem s k
      ∙ ap₂ (λ a b. k / granule a % 2 ^ ways_value b) ig iw
      ∙ ap (λ t. t / g % w) (omega arith) in
    let at : (k : ℕ)
        → base ≤ k
        → k - base < 2 ^ 52
        → get_dpa d k ≡ (k - base) / (g * w) * g + (k - base) % g + d.dpa_base =
      λ k l h.
        get_dpa-interleaved d k l h
        ∙ ap (λ t. (k - base) / (g * t) * g + (k - base) % g + d.dpa_base) ways in
    let (block, inside) =
      split_unique g (n / (g * w)) (n % g) (n' / (g * w)) (n' % g)
        (mod-lt n (granule_pos d.decoder.ig)) (mod-lt n' (granule_pos d.decoder.ig))
        (omega (arith, at hpa low fits, at hpa' low' fits')) in
    let same =
      same_offset g w base n n' (granule_pos d.decoder.ig)
        (one-le-pow (ways_value d.decoder.iw) 2 (omega arith)) aligned
        (sym (place hpa low) ∙ target ∙ place hpa' low') block inside in
    omega arith

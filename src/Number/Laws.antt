-- ===== src/Number/Laws.antt =====
-- opencxl/util/number.py: what the shifts and masks compute.
use Prim.Native.Nat.{bit_and, bit_or}
use native.Mathlib.Nat.{
  div-add-mod, mod-lt, one-le-pow, mul-div_cancel, mod-eq_of_lt, mul_assoc, zero-mul, add-mul,
  mul-add-mod_self_right,
}
use opencxl_core.Prelude.{
  ℕ, zero, suc, ◌+◌, ◌-◌, ◌*◌, ◌/◌, ◌%◌, ◌^◌, ◌≤◌, ◌<◌, ◌≡◌, sym, ap, ap₂, ◌∙◌, arith, List, [],
  ◌∷◌, ok,
}
use opencxl_core.Prelude.Bits.{
  shl, shr, low_mask, and_not, bit_and-low_mask, bit_and-field, bit_or-shl_right, pow_add, shr-lt,
  bit_and_comm,
}
use opencxl_core.Number.{bswap16, bswap32, split_units, split_int, extract_upper, extract_lower}

pub bswap16_lem : (n : ℕ) → bswap16 n ≡ n / 256 % 256 + n % 256 * 256
unfolding bswap16
bswap16_lem n =
    let high : shr (bit_and n 0xff00) 8 ≡ n / 256 % 256 =
      ap (λ t. shr t 8) (bit_and-field 8 8 n) ∙ mul-div_cancel (n / 256 % 256) (omega arith) in
    ap₂ (λ a b. bit_or a (shl b 8)) high (bit_and-low_mask 8 n)
    ∙ bit_or-shl_right 8 (n % 256) (n / 256 % 256) (omega arith)

bswap32_lem :
    (n : ℕ)
    → bswap32 n
      ≡ n / 2 ^ 24 % 256 + n / 2 ^ 16 % 256 * 2 ^ 8 + n / 2 ^ 8 % 256 * 2 ^ 16 + n % 256 * 2 ^ 24
unfolding bswap32
bswap32_lem n =
    let a = n / 2 ^ 24 % 256 in
    let b = n / 2 ^ 16 % 256 in
    let c = n / 2 ^ 8 % 256 in
    let d = n % 256 in
    let a_at : shr (bit_and n 0xff000000) 24 ≡ a =
      ap (λ t. shr t 24) (bit_and-field 24 8 n) ∙ mul-div_cancel a (omega arith) in
    let b_at : shr (bit_and n 0x00ff0000) 8 ≡ shl b 8 =
      ap (λ t. shr t 8) (bit_and-field 16 8 n) ∙ omega arith in
    let c_at : shl (bit_and n 0x0000ff00) 8 ≡ shl c 16 =
      ap (λ t. shl t 8) (bit_and-field 8 8 n) ∙ omega arith in
    let d_at : shl (bit_and n 0x000000ff) 24 ≡ shl d 24 =
      ap (λ t. shl t 24) (bit_and-low_mask 8 n) in
    let first = bit_or-shl_right 8 b a (omega arith) in
    let second = bit_or-shl_right 16 c (a + shl b 8) (omega arith) in
    let third = bit_or-shl_right 24 d (a + shl b 8 + shl c 16) (omega arith) in
    ap₂ (λ x y. bit_or x y) (ap₂ (λ x y. bit_or x y) (ap₂ (λ x y. bit_or x y) a_at b_at) c_at) d_at
    ∙ ap (λ t. bit_or (bit_or t (shl c 16)) (shl d 24)) first
    ∙ ap (λ t. bit_or t (shl d 24)) second
    ∙ third

-- Swapped twice, a number of 16 bits is as it was.
pub bswap16-bswap16 : (n : ℕ) → n < 2 ^ 16 → bswap16 (bswap16 n) ≡ n
bswap16-bswap16 n h = omega (arith, bswap16_lem n, bswap16_lem (bswap16 n))

-- Swapped twice, a number of 32 bits is as it was.
pub bswap32-bswap32 : (n : ℕ) → n < 2 ^ 32 → bswap32 (bswap32 n) ≡ n
bswap32-bswap32 n h = omega (arith, bswap32_lem n, bswap32_lem (bswap32 n))

-- The specification of a split: the parts, the highest first, put together again.
abbrev pub join : ℕ → List ℕ → ℕ → ℕ
join stride [] high = high
join stride (part ∷ parts) high = join stride parts (high * 2 ^ stride + part)

masked_lem : (unit c : ℕ) → and_not c (shl 1 unit - 1) ≡ c / 2 ^ unit * 2 ^ unit
masked_lem unit c = omega (arith, bit_and-low_mask unit c, div-add-mod c (2 ^ unit))

join-split_units :
    (stride count c high : ℕ)
    → c < 2 ^ (count * stride)
    → join stride (split_units stride count (count * stride - stride) c) high
      ≡ high * 2 ^ (count * stride) + c
unfolding split_units
join-split_units stride zero c high h =
    let one : 2 ^ (0 * stride) ≡ 1 = ap (λ t. 2 ^ t) (zero-mul stride) in
    omega (arith, ap (λ t. high * t) one)
join-split_units stride (suc count) c high h =
    let u = count * stride in
    let place : suc count * stride - stride ≡ u = omega arith in
    let whole : 2 ^ (suc count * stride) ≡ 2 ^ stride * 2 ^ u =
      ap (λ t. 2 ^ t) (omega arith) ∙ pow_add stride u in
    let positive = one-le-pow u 2 (omega arith) in
    let rest : c - c / 2 ^ u * 2 ^ u ≡ c % 2 ^ u = omega (arith, div-add-mod c (2 ^ u)) in
    let part = mul-div_cancel (c / 2 ^ u) positive in
    ap
      (λ k.
        join stride (split_units stride count (k - stride) (c - and_not c (shl 1 k - 1)))
          (high * 2 ^ stride + shr (and_not c (shl 1 k - 1)) k))
      place
    ∙ ap
        (λ m.
          join stride (split_units stride count (u - stride) (c - m)) (high * 2 ^ stride + shr m u))
        (masked_lem u c)
    ∙ ap₂ (λ l p. join stride (split_units stride count (u - stride) l) (high * 2 ^ stride + p))
        rest part
    ∙ join-split_units stride count (c % 2 ^ u) (high * 2 ^ stride + c / 2 ^ u) (mod-lt c positive)
    ∙ omega (
      arith,
      ap (λ t. high * t) whole,
      mul_assoc high (2 ^ stride) (2 ^ u),
      add-mul (high * 2 ^ stride) (c / 2 ^ u) (2 ^ u),
      div-add-mod c (2 ^ u),
    )

-- The parts of a line that is a whole number of strides long, put together again, are the number
-- that was split, if the line can hold it.
pub join-split_int :
    (stride count cacheline : ℕ)
    → 0 < stride
    → cacheline < 2 ^ (count * stride)
    → join stride (split_int cacheline (count * stride) stride) 0 ≡ cacheline
unfolding split_int
join-split_int stride count cacheline positive fits =
    ap (λ k. join stride (split_units stride k (count * stride - stride) cacheline) 0)
      (mul-div_cancel count positive)
    ∙ join-split_units stride count cacheline 0 fits
    ∙ omega arith

upper_mask : (m d : ℕ) → and_not (shl 1 (m + d) - 1) (shl 1 d - 1) ≡ shl (low_mask m) d
upper_mask m d =
    let below = one-le-pow d 2 (omega arith) in
    let above = one-le-pow m 2 (omega arith) in
    let one_more : low_mask m + 1 ≡ 2 ^ m = omega arith in
    let product = sym (add-mul (low_mask m) 1 (2 ^ d)) ∙ ap (λ t. t * 2 ^ d) one_more in
    let split : shl 1 (m + d) - 1 ≡ low_mask m * 2 ^ d + low_mask d =
      omega (arith, pow_add m d, product) in
    let low : (shl 1 (m + d) - 1) % 2 ^ d ≡ low_mask d =
      ap (λ t. t % 2 ^ d) split
      ∙ mul-add-mod_self_right (low_mask m) (2 ^ d) (low_mask d)
      ∙ mod-eq_of_lt (omega arith) in
    omega (arith, bit_and-low_mask d (shl 1 (m + d) - 1), low, split)

extract_upper_lem :
    (from_what how_much how_long : ℕ)
    → from_what < 2 ^ how_long
    → how_much ≤ how_long
    → extract_upper from_what how_much how_long ≡ ok (from_what / 2 ^ (how_long - how_much))
unfolding extract_upper
extract_upper_lem from_what how_much how_long fits within =
    let d = how_long - how_much in
    let joined : how_long ≡ how_much + d = omega arith in
    let mask : and_not (shl 1 how_long - 1) (shl 1 d - 1) ≡ shl (low_mask how_much) d =
      ap (λ k. and_not (shl 1 k - 1) (shl 1 d - 1)) joined ∙ upper_mask how_much d in
    let sum : d + how_much ≡ how_long = omega arith in
    let top = shr-lt from_what d how_much (rw sum fits) in
    let bits : shr (bit_and from_what (and_not (shl 1 how_long - 1) (shl 1 d - 1))) d
        ≡ from_what / 2 ^ d =
      ap (λ k. shr (bit_and from_what k) d) mask
      ∙ ap (λ k. shr k d) (bit_and-field d how_much from_what)
      ∙ mul-div_cancel (from_what / 2 ^ d % 2 ^ how_much) (one-le-pow d 2 (omega arith))
      ∙ mod-eq_of_lt top in
    ground (arith, bits)

extract_lower_lem :
    (from_what how_much how_long : ℕ)
    → from_what < 2 ^ how_long
    → how_much ≤ how_long
    → extract_lower from_what how_much how_long ≡ ok (from_what % 2 ^ how_much)
unfolding extract_lower
extract_lower_lem from_what how_much how_long fits within =
    let bits = bit_and_comm (low_mask how_much) from_what ∙ bit_and-low_mask how_much from_what in
    ground (arith, bits)

-- Of a number of `how_long` bits, the upper `how_much` bits and the remaining lower ones are both
-- returned, and make the number again.
pub extract_upper-extract_lower :
    (from_what how_much how_long : ℕ)
    → from_what < 2 ^ how_long
    → how_much ≤ how_long
    → (upper : ℕ) × (lower : ℕ) × (extract_upper from_what how_much how_long ≡ ok upper)
      × (extract_lower from_what (how_long - how_much) how_long ≡ ok lower)
      × (upper * 2 ^ (how_long - how_much) + lower ≡ from_what)
extract_upper-extract_lower from_what how_much how_long fits within =
    let d = how_long - how_much in
    (
      from_what / 2 ^ d,
      from_what % 2 ^ d,
      extract_upper_lem from_what how_much how_long fits within,
      extract_lower_lem from_what d how_long fits (omega arith),
      omega (arith, div-add-mod from_what (2 ^ d)),
    )

-- ===== src/Cache/Address.antt =====
-- opencxl/cxl/component/cache_controller.py: how an address splits into a tag, a set and a place in
-- a block, and how an evicted block finds its address again.
use Prim.Native.Nat.{bit_and, bit_or}
use native.Mathlib.Nat.{
  mul-div_cancel, div-eq_of_lt, div-add-mod, mod-lt, div-div-eq-div-mul, one-le-pow,
  mul-add-mod_self_right, mod-eq_of_lt, add-mul-div_left,
}
use opencxl_core.Prelude.{
  ℕ, ◌+◌, ◌-◌, ◌*◌, ◌/◌, ◌%◌, ◌^◌, ◌<◌, ◌≡◌, sym, ap, ap₂, ◌∙◌, arith, length,
}
use opencxl_core.Prelude.Bits.{
  shl, shr, low_mask, and_not, bit_or-shl, bit_and-low_mask, bit_and-field, pow_add,
}
use opencxl_core.Cache.Controller.{
  CacheController, blk_bit, blk_mask, set_mask, cache_extract_tag, cache_extract_set, assem_addr,
}

-- What the constructor establishes and every operation keeps.
pub record IsWellFormed (c : CacheController) : Type 0 where
  pub sets_power : c.set_size ≡ 2 ^ c.set_bit
  pub sets_length : length c.sets ≡ c.set_size

-- The bytes that one value of the tag covers: all the sets.
abbrev pub tag_span : CacheController → ℕ
tag_span c = 2 ^ (c.set_bit + blk_bit)

module _ (c : CacheController) (wf : IsWellFormed c) where
  set_mask_lem : set_mask c ≡ shl (low_mask c.set_bit) blk_bit
  set_mask_lem = ap (λ t. shl (t - 1) blk_bit) (omega arith)

  pub cache_extract_set_lem : (addr : ℕ) → cache_extract_set c addr ≡ addr / 64 % c.set_size
  unfolding cache_extract_set
  cache_extract_set_lem addr =
      ap (λ m. shr (bit_and addr m) blk_bit) set_mask_lem
      ∙ ap (λ t. shr t blk_bit) (bit_and-field blk_bit c.set_bit addr)
      ∙ mul-div_cancel (addr / 64 % 2 ^ c.set_bit) (omega arith)
      ∙ ap (λ t. addr / 64 % t) (sym wf.sets_power)

  tag_mask_lem : bit_or (set_mask c) blk_mask ≡ low_mask (c.set_bit + blk_bit)
  tag_mask_lem =
      let positive = one-le-pow c.set_bit 2 (omega arith) in
      ap (λ m. bit_or m blk_mask) set_mask_lem
      ∙ bit_or-shl blk_bit (low_mask c.set_bit) blk_mask (omega arith)
      ∙ omega (arith, pow_add c.set_bit blk_bit)

  pub cache_extract_tag_lem : (addr : ℕ) → cache_extract_tag c addr ≡ addr / tag_span c
  unfolding cache_extract_tag
  cache_extract_tag_lem addr =
      let k = c.set_bit + blk_bit in
      let positive = one-le-pow k 2 (omega arith) in
      let kept : addr - addr % 2 ^ k ≡ addr / 2 ^ k * 2 ^ k =
        omega (arith, div-add-mod addr (2 ^ k)) in
      ap (λ m. shr (and_not addr m) k) tag_mask_lem
      ∙ ap (λ t. shr (addr - t) k) (bit_and-low_mask k addr)
      ∙ ap (λ t. shr t k) kept
      ∙ mul-div_cancel (addr / 2 ^ k) positive

  pub cache_extract_set-lt : (addr : ℕ) → cache_extract_set c addr < c.set_size
  cache_extract_set-lt addr = omega (
    arith,
    cache_extract_set_lem addr,
    mod-lt (addr / 64) {m = c.set_size} (omega (arith, one-le-pow c.set_bit 2 (omega arith))),
  )

  assem_addr_lem :
      (tag index : ℕ) → index < c.set_size → assem_addr c tag index ≡ tag * tag_span c + index * 64
  unfolding assem_addr
  assem_addr_lem tag index h =
      bit_or-shl (c.set_bit + blk_bit) tag (shl index blk_bit)
        (omega (arith, pow_add c.set_bit blk_bit))

  -- The address that a block is written back to is the address that it was loaded from, rounded
  -- down to its block.
  pub assem_addr-extract :
      (addr : ℕ)
      → assem_addr c (cache_extract_tag c addr) (cache_extract_set c addr) + addr % 64 ≡ addr
  assem_addr-extract addr =
      let tag = cache_extract_tag_lem addr in
      let index = cache_extract_set_lem addr in
      let joined =
        assem_addr_lem (cache_extract_tag c addr) (cache_extract_set c addr)
          (cache_extract_set-lt addr) in
      let m = 2 ^ c.set_bit in
      let q = addr / 64 in
      let block : addr / (64 * m) ≡ q / m = sym (div-div-eq-div-mul addr 64 m) in
      let span : tag_span c ≡ 64 * m = omega (arith, pow_add c.set_bit blk_bit) in
      let tag' : cache_extract_tag c addr ≡ q / m = tag ∙ ap (λ t. addr / t) span ∙ block in
      let index' : cache_extract_set c addr ≡ q % m = index ∙ ap (λ t. q % t) wf.sets_power in
      let whole = ap₂ (λ a b. a * b) tag' span in
      omega (arith, joined, whole, index', div-add-mod q m, div-add-mod addr 64)

  -- A tag and a set come back from any address of their block.
  pub extract-assem_addr :
      (tag index place : ℕ)
      → index < c.set_size
      → place < 64
      → (cache_extract_tag c (assem_addr c tag index + place) ≡ tag)
        × (cache_extract_set c (assem_addr c tag index + place) ≡ index)
  extract-assem_addr tag index place h p =
      let m = 2 ^ c.set_bit in
      let span : tag_span c ≡ m * 64 = pow_add c.set_bit blk_bit in
      let a = assem_addr c tag index + place in
      let inside : index * 64 + place < tag_span c = omega arith in
      let joined : a ≡ index * 64 + place + tag_span c * tag =
        omega (arith, assem_addr_lem tag index h) in
      let granule : a / 64 ≡ tag * m + index =
        omega (arith, assem_addr_lem tag index h, ap (λ t. tag * t) span) in
      (
        cache_extract_tag_lem a
            ∙ ap (λ t. t / tag_span c) joined
            ∙ add-mul-div_left (index * 64 + place) tag {y = tag_span c} (omega arith)
            ∙ ap (λ t. t + tag) (div-eq_of_lt inside)
            ∙ omega arith,
        cache_extract_set_lem a
            ∙ ap₂ (λ x y. x % y) granule wf.sets_power
            ∙ mul-add-mod_self_right tag m index
            ∙ mod-eq_of_lt (omega arith),
      )

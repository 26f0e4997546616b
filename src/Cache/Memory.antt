-- ===== src/Cache/Memory.antt =====
-- opencxl/cxl/component/cache_controller.py: the cache as memory. What it holds for one address
-- outlives every load and store of other blocks, unless it was written back.
use native.Mathlib.Decide.{ℕ_discrete}
use opencxl_core.Prelude.{
  ℕ, ◌-◌, ◌/◌, ◌%◌, ◌<◌, ◌≡◌, ◌≢◌, sym, ap, ap₂, subst, ◌∙◌, ◌⊎◌, inl, inr, arith, [], length,
  get_or, modify, get_or-modify_self, get_or-modify_ne, ok, Result-cases,
}
use opencxl_core.Cache.Fifo.{write_back, CacheRequest, Fifos}
use opencxl_core.Cache.Blocks.{CacheSet}
use opencxl_core.Cache.Controller.{
  CacheController, blk_size, cache_extract_tag, cache_extract_set, set_at, put_set, assem_addr,
  load_in_set, cache_coherent_load, store_in_set, cache_coherent_store,
}
use opencxl_core.Cache.Address.{IsWellFormed, cache_extract_set-lt, assem_addr-extract}
use opencxl_core.Cache.Traffic.{Sent}
use opencxl_core.Cache.Coherent.{Holds}
use opencxl_core.Cache.Retain.{written_back}
use opencxl_core.Cache.NoLoss.{load_in_set-others, store_in_set-others}

-- The cache has a valid block for the address, with this data.
abbrev pub Cached : CacheController → ℕ → ℕ → Type 0
Cached c addr value = Holds (set_at c (cache_extract_set c addr)) (cache_extract_tag c addr) value

-- The request that writes the data of the address's block back.
abbrev pub block_written_back : ℕ → ℕ → CacheRequest
block_written_back addr value = record {
  type = write_back;
  addr = addr - addr % blk_size;
  size = blk_size;
  value = value;
}

module _ (c : CacheController) (wf : IsWellFormed c) (addr addr' : ℕ) where
  -- Two addresses of different blocks differ in the set, or else in the tag.
  tags_differ :
      addr / blk_size ≢ addr' / blk_size
      → cache_extract_set c addr' ≡ cache_extract_set c addr
      → cache_extract_tag c addr' ≢ cache_extract_tag c addr
  tags_differ apart sets tags =
      let home = assem_addr-extract c wf addr in
      let home' = assem_addr-extract c wf addr' in
      let same = ap₂ (assem_addr c) tags sets in apart (omega arith)

  written_back_lem :
      (size value : ℕ)
      → size ≡ blk_size
      → cache_extract_set c addr' ≡ cache_extract_set c addr
      → written_back c (cache_extract_set c addr) size (cache_extract_tag c addr') value
        ≡ block_written_back addr' value
  written_back_lem size value sized sets =
      let home' = assem_addr-extract c wf addr' in
      let to : assem_addr c (cache_extract_tag c addr') (cache_extract_set c addr)
          ≡ addr' - addr' % 64 =
        ap (assem_addr c (cache_extract_tag c addr')) (sym sets) ∙ omega arith in
      ap₂ (λ a b. record { type = write_back; addr = a; size = b; value = value }) to sized

  abbrev empty_set : CacheSet
  empty_set = record { blocks = []; counter = 0 }

  Cached-put_set_self :
      (s : CacheSet) (value : ℕ)
      → cache_extract_set c addr' ≡ cache_extract_set c addr
      → Holds s (cache_extract_tag c addr') value
      → Cached (put_set c (cache_extract_set c addr) s) addr' value
  unfolding cache_extract_tag cache_extract_set
  Cached-put_set_self s value sets held =
      let index = cache_extract_set c addr in
      let inside : index < length c.sets =
        omega (arith, cache_extract_set-lt c wf addr, wf.sets_length) in
      let here = get_or-modify_self c.sets index (λ _. s) empty_set inside in
      let there : get_or (modify c.sets index (λ _. s)) (cache_extract_set c addr') empty_set ≡ s =
        ap (λ i. get_or (modify c.sets index (λ _. s)) i empty_set) sets ∙ here in
      subst (λ t. Holds t (cache_extract_tag c addr') value) (sym there) held

  Cached-put_set_ne :
      (s : CacheSet) (value : ℕ)
      → cache_extract_set c addr' ≢ cache_extract_set c addr
      → Cached c addr' value
      → Cached (put_set c (cache_extract_set c addr) s) addr' value
  unfolding cache_extract_tag cache_extract_set
  Cached-put_set_ne s value sets held =
      let there =
        get_or-modify_ne c.sets (cache_extract_set c addr) (cache_extract_set c addr') (λ _. s)
          empty_set (λ e. sets (sym e)) in
      subst (λ t. Holds t (cache_extract_tag c addr') value) (sym there) held

  -- From what the set keeps to what the controller keeps.
  Cached-kept :
      (s : CacheSet) (size value : ℕ) (w' : Fifos)
      → size ≡ blk_size
      → Cached c addr' value
      → (cache_extract_set c addr' ≡ cache_extract_set c addr
          → Holds (set_at c (cache_extract_set c addr)) (cache_extract_tag c addr') value
          → Holds s (cache_extract_tag c addr') value
            ⊎ Sent w'
                (written_back c (cache_extract_set c addr) size (cache_extract_tag c addr') value))
      → Cached (put_set c (cache_extract_set c addr) s) addr' value
        ⊎ Sent w' (block_written_back addr' value)
  Cached-kept s size value w' sized held kept =
      elim (ℕ_discrete (cache_extract_set c addr') (cache_extract_set c addr)) [
        | no sets ↦ inl (Cached-put_set_ne s value sets held)
        | yes sets ↦
            let held' =
              subst (λ i. Holds (set_at c i) (cache_extract_tag c addr') value) sets held in
            elim (kept sets held') [
              | inl stays ↦ inl (Cached-put_set_self s value sets stays)
              | inr sent ↦ inr (subst (Sent w') (written_back_lem size value sized sets) sent)
            ]
      ]

-- A store to one block keeps the data that the cache holds for an address of any other block, or
-- has sent it back to that block's address.
pub cache_coherent_store-others :
    (c : CacheController) (addr size v : ℕ) (w : Fifos) (addr' value : ℕ) {c' : CacheController}
    {w' : Fifos}
    → IsWellFormed c
    → addr / blk_size ≢ addr' / blk_size
    → Cached c addr' value
    → cache_coherent_store c addr size v w ≡ ok (c', w')
    → Cached c' addr' value ⊎ Sent w' (block_written_back addr' value)
unfolding cache_coherent_store
cache_coherent_store-others c addr size v w addr' value {c'} {w'} wf apart held h =
    let tag = cache_extract_tag c addr in
    let index = cache_extract_set c addr in
    let s = set_at c index in
    let sized : size ≡ blk_size = ground arith in
    elim (Result-cases (store_in_set c s tag index addr size v w)) [
      | inr (x, e) ↦ absurd (ground arith)
      | inl ((s', w₁), e) ↦
          let last : put_set c index s' ≡ c' = ground arith in
          let fifos : w₁ ≡ w' = ground arith in
          let kept = Cached-kept c wf addr addr' s' size value w₁ sized held (λ sets held'.
            store_in_set-others c s tag index size w (cache_extract_tag c addr') value
              (tags_differ c wf addr addr' apart sets) held' addr v e) in
          subst (λ k. Cached k addr' value ⊎ Sent w' (block_written_back addr' value)) last
            (subst
              (λ k.
                Cached (put_set c index s') addr' value ⊎ Sent k (block_written_back addr' value))
              fifos kept)
    ]

-- So does a load.
pub cache_coherent_load-others :
    (c : CacheController) (addr size : ℕ) (w : Fifos) (addr' value : ℕ) {c' : CacheController}
    {v : ℕ} {w' : Fifos}
    → IsWellFormed c
    → addr / blk_size ≢ addr' / blk_size
    → Cached c addr' value
    → cache_coherent_load c addr size w ≡ ok ((c', v), w')
    → Cached c' addr' value ⊎ Sent w' (block_written_back addr' value)
unfolding cache_coherent_load
cache_coherent_load-others c addr size w addr' value {c'} {v} {w'} wf apart held h =
    let tag = cache_extract_tag c addr in
    let index = cache_extract_set c addr in
    let s = set_at c index in
    let sized : size ≡ blk_size = ground arith in
    elim (Result-cases (load_in_set c s tag index addr size w)) [
      | inr (x, e) ↦ absurd (ground arith)
      | inl (((s', _), w₁), e) ↦
          let last : put_set c index s' ≡ c' = ground arith in
          let fifos : w₁ ≡ w' = ground arith in
          let kept = Cached-kept c wf addr addr' s' size value w₁ sized held (λ sets held'.
            load_in_set-others c s tag index size w (cache_extract_tag c addr') value
              (tags_differ c wf addr addr' apart sets) held' addr e) in
          subst (λ k. Cached k addr' value ⊎ Sent w' (block_written_back addr' value)) last
            (subst
              (λ k.
                Cached (put_set c index s') addr' value ⊎ Sent k (block_written_back addr' value))
              fifos kept)
    ]

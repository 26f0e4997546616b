-- ===== src/Cache/NoLoss.antt =====
-- opencxl/cxl/component/cache_controller.py: the loads and stores of `Cache.Controller` lose no
-- data of the other blocks in the set.
use opencxl_core.Prelude.{
  ℕ, ◌≡◌, ◌≢◌, refl, sym, ap, subst, ◌∙◌, ◌⊎◌, inl, inr, arith, true, false, [], ◌∷◌, some, modify,
  ok, Option-cases, Bool-cases, Result-cases,
}
use opencxl_core.Cache.Fifo.{CacheRequest, CacheResponse, Fifos}
use opencxl_core.Cache.Blocks.{
  CacheState, cache_exclusive, cache_modified, is_invalid, is_shared, CacheBlock, CacheSet, block,
  cache_extract_block_state, cache_update_block_state, has_tag, cache_find_valid_block,
  cache_data_read, cache_data_write, cache_rsp_state_lookup,
}
use opencxl_core.Cache.Controller.{
  CacheController, memory_load, cache_to_coh_state_lookup, free_block, fill_block, load_miss,
  load_in_set, store_hit, store_miss, store_in_set,
}
use opencxl_core.Cache.Change.{
  touched, filled, restated, blocks-cache_data_read, blocks-restated, blocks-filled,
}
use opencxl_core.Cache.Traffic.{
  Extends, Sent, Sent-Extends, memory_load-sent, cache_to_coh_state_lookup-Extends,
}
use opencxl_core.Cache.Coherent.{Holds, find_valid-in_range, found_after, other_after}
use opencxl_core.Cache.Retain.{written_back, Freed, free_block-Freed}

invalid-has_tag : (tag : ℕ) (b : CacheBlock) → is_invalid b.state ≡ true → has_tag tag b ≡ false
invalid-has_tag tag b h = ground arith

other-has_tag :
    (tag tag' : ℕ) (b : CacheBlock) → tag' ≢ tag → has_tag tag b ≡ true → has_tag tag' b ≡ false
other-has_tag tag tag' b n h = ground arith

wrong-has_tag : (tag' : ℕ) (b : CacheBlock) → b.tag ≢ tag' → has_tag tag' b ≡ false
wrong-has_tag tag' b n = ground arith

pub tag-has_tag :
    (tag : ℕ) (b : CacheBlock) → b.tag ≡ tag → is_invalid b.state ≡ false → has_tag tag b ≡ true
tag-has_tag tag b h v = ground arith

-- A change to a block that has not the tag, before or after, keeps what the tag holds.
Holds-change :
    (s s' : CacheSet) (tag' blk value : ℕ) (f : CacheBlock → CacheBlock)
    → s'.blocks ≡ modify s.blocks blk f
    → has_tag tag' (block s blk) ≡ false
    → has_tag tag' (f (block s blk)) ≡ false
    → Holds s tag' value
    → Holds s' tag' value
Holds-change s s' tag' blk value f change before after (j, found, held) =
    let tagged = (find_valid-in_range s tag' j found).1 in
    let apart : j ≢ blk = λ e. cc (ap (λ k. has_tag tag' (block s k)) e) in
    let (still, kept) = other_after s s' tag' blk f change j found apart after in
    (j, still, ap (λ b. b.value) kept ∙ held)

-- What filling a block does when it returns: nothing, or one change.
pub fill_block_lem :
    (s : CacheSet) (tag blk : ℕ) (packet : CacheResponse) (w : Fifos) {s' : CacheSet} {v : ℕ}
    {w' : Fifos}
    → fill_block s tag blk packet w ≡ ok ((s', v), w')
    → (w ≡ w')
      × (v ≡ packet.value)
      × ((s ≡ s')
          ⊎ ((state : CacheState) × (is_invalid state ≡ false)
              × (s'.blocks ≡ modify s.blocks blk (filled s tag state packet.value))))
unfolding fill_block cache_extract_block_state
fill_block_lem s tag blk packet w {s'} {v} {w'} h =
    elim (Result-cases (cache_rsp_state_lookup packet.status)) [
      | inr (x, e) ↦ absurd (ground arith)
      | inl (state, e) ↦ elim (Bool-cases (is_invalid state)) [
        | inl gone ↦ (ground arith, ground arith, inl (ground arith))
        | inr valid ↦
            let written =
              cache_data_write (cache_update_block_state s tag blk state) blk packet.value in
            let same : written ≡ s' = ground arith in
            (
              ground arith,
              ground arith,
              inr (
                state,
                valid,
                ap (λ t. t.blocks) (sym same) ∙ blocks-filled s blk tag state packet.value valid,
              ),
            )
      ]
    ]

module _ (c : CacheController) (s : CacheSet) (tag index size : ℕ) (w : Fifos) (tag' value : ℕ)
    (other : tag' ≢ tag) (holds : Holds s tag' value) where
  -- What a load or a store with this outcome has to give.
  abbrev Kept : CacheSet → Fifos → Type 0
  Kept s' w' = Holds s' tag' value ⊎ Sent w' (written_back c index size tag' value)

  abbrev packet' : CacheRequest
  packet' = written_back c index size tag' value

  -- Filling the block that was freed, after more was sent.
  Kept-filled :
      (s₁ s₂ : CacheSet) (blk v : ℕ) (state : CacheState) (w₁ w₂ : Fifos)
      → Freed c index size s s₁ tag blk w w₁
      → Extends w₁ w₂
      → s₂.blocks ≡ modify s₁.blocks blk (filled s₁ tag state v)
      → Kept s₂ w₂
  Kept-filled s₁ s₂ blk v state w₁ w₂ freed more change = elim (freed.others tag' value holds) [
    | inl kept ↦ inl (
        Holds-change s₁ s₂ tag' blk value (filled s₁ tag state v) change
          (invalid-has_tag tag' (block s₁ blk) freed.free)
          (wrong-has_tag tag' (filled s₁ tag state v (block s₁ blk)) (λ e. other (sym e))) kept)
    | inr sent ↦ inr (Sent-Extends w₁ w₂ packet' more sent)
  ]

  load_miss-others :
      (addr : ℕ) {s' : CacheSet} {v : ℕ} {w' : Fifos}
      → load_miss c s tag index addr size w ≡ ok ((s', v), w')
      → Kept s' w'
  unfolding load_miss
  load_miss-others addr {s'} {v} {w'} h = elim (Result-cases (free_block c s tag index size w)) [
    | inr (x, e) ↦ absurd (ground arith)
    | inl (((s₁, blk), w₁), e) ↦ elim (Result-cases (memory_load c addr size w₁)) [
      | inr (x, e') ↦ absurd (ground arith)
      | inl ((packet, w₂), e') ↦
          let freed = free_block-Freed c s tag index size w e in
          let (t, sent) = memory_load-sent c addr size w₁ e' in
          let filling : fill_block s₁ tag blk packet w₂ ≡ ok ((s', v), w') = ground arith in
          let (same, _, result) = fill_block_lem s₁ tag blk packet w₂ filling in
          let more : Extends w₁ w' = subst (Extends w₁) same ((t, _) ∷ [], sent) in
          elim result [
            | inl kept ↦ elim (freed.others tag' value holds) [
              | inl there ↦ inl (subst (λ x. Holds x tag' value) kept there)
              | inr written ↦ inr (Sent-Extends w₁ w' packet' more written)
            ]
            | inr (state, valid, change) ↦
                Kept-filled s₁ s' blk packet.value state w₁ w' freed more change
          ]
    ]
  ]

  -- A load keeps every other tag's data, or has written it back.
  pub load_in_set-others :
      (addr : ℕ) {s' : CacheSet} {v : ℕ} {w' : Fifos}
      → load_in_set c s tag index addr size w ≡ ok ((s', v), w')
      → Kept s' w'
  unfolding load_in_set load_miss
  load_in_set-others addr {s'} {v} {w'} h = elim (Option-cases (cache_find_valid_block tag s)) [
    | inr (blk, found) ↦
        let same : (cache_data_read s blk).0 ≡ s' = ground arith in
        let tagged = (find_valid-in_range s tag blk found).1 in
        let apart = other-has_tag tag tag' (block s blk) other tagged in
        inl (
          Holds-change s s' tag' blk value (touched s)
            (ap (λ t. t.blocks) (sym same) ∙ blocks-cache_data_read s blk) apart apart holds)
    | inl missed ↦
        let miss : load_miss c s tag index addr size w ≡ ok ((s', v), w') = ground arith in
        load_miss-others addr miss
  ]

  store_miss-others :
      (addr v : ℕ) {s' : CacheSet} {w' : Fifos}
      → store_miss c s tag index addr size v w ≡ ok (s', w')
      → Kept s' w'
  unfolding store_miss
  store_miss-others addr v {s'} {w'} h = elim (Result-cases (free_block c s tag index size w)) [
    | inr (x, e) ↦ absurd (ground arith)
    | inl (((s₁, blk), w₁), e) ↦ elim (Result-cases (cache_to_coh_state_lookup c addr w₁)) [
      | inr (x, e') ↦ absurd (ground arith)
      | inl ((_, w₂), e') ↦
          let freed = free_block-Freed c s tag index size w e in
          let same : w₂ ≡ w' = ground arith in
          let more = subst (Extends w₁) same (cache_to_coh_state_lookup-Extends c addr w₁ e') in
          let last : cache_data_write (cache_update_block_state s₁ tag blk cache_modified) blk v
              ≡ s' =
            ground arith in
          Kept-filled s₁ s' blk v cache_modified w₁ w' freed more
            (ap (λ t. t.blocks) (sym last) ∙ blocks-filled s₁ blk tag cache_modified v refl)
    ]
  ]

  -- Making the block of the stored tag exclusive, and modified with the new data.
  exclusive-others :
      (blk : ℕ)
      → cache_find_valid_block tag s ≡ some blk
      → Holds (cache_update_block_state s tag blk cache_exclusive) tag' value
  exclusive-others blk found =
      let apart =
        other-has_tag tag tag' (block s blk) other (find_valid-in_range s tag blk found).1 in
      Holds-change s (cache_update_block_state s tag blk cache_exclusive) tag' blk value
        (restated s tag cache_exclusive) (blocks-restated s blk tag cache_exclusive refl) apart
        (wrong-has_tag tag' (restated s tag cache_exclusive (block s blk)) (λ e. other (sym e)))
        holds

  -- Writing new data into the block that has the stored tag, in a set that holds the other tag.
  write-others :
      (s₁ : CacheSet) (blk v : ℕ)
      → has_tag tag (block s₁ blk) ≡ true
      → Holds s₁ tag' value
      → Holds
          (cache_data_write (cache_update_block_state s₁ tag blk cache_modified) blk v)
          tag'
          value
  write-others s₁ blk v tagged held =
      Holds-change s₁ _ tag' blk value (filled s₁ tag cache_modified v)
        (blocks-filled s₁ blk tag cache_modified v refl)
        (other-has_tag tag tag' (block s₁ blk) other tagged)
        (wrong-has_tag tag' (filled s₁ tag cache_modified v (block s₁ blk)) (λ e. other (sym e)))
        held

  store_hit-others :
      (addr blk v : ℕ) {s' : CacheSet} {w' : Fifos}
      → cache_find_valid_block tag s ≡ some blk
      → store_hit c s tag blk addr v w ≡ ok (s', w')
      → Kept s' w'
  unfolding store_hit cache_extract_block_state
  store_hit-others addr blk v {s'} {w'} found h =
      let (inside, tagged) = find_valid-in_range s tag blk found in
      let valid : is_invalid (block s blk).state ≡ false = ground arith in
      elim (Bool-cases (is_shared (block s blk).state)) [
        | inr alone ↦
            let last : cache_data_write (cache_update_block_state s tag blk cache_modified) blk v
                ≡ s' =
              ground arith in
            inl (subst (λ x. Holds x tag' value) last (write-others s blk v tagged holds))
        | inl shared ↦
            let s₁ = cache_update_block_state s tag blk cache_exclusive in
            let change = blocks-restated s blk tag cache_exclusive refl in
            let again =
              found_after s s₁ tag blk (restated s tag cache_exclusive) change found
                (tag-has_tag tag (restated s tag cache_exclusive (block s blk)) refl refl) in
            let tagged₁ = (find_valid-in_range s₁ tag blk again.0).1 in
            let last : cache_data_write (cache_update_block_state s₁ tag blk cache_modified) blk v
                ≡ s' =
              ground arith in
            inl (
              subst (λ x. Holds x tag' value) last
                (write-others s₁ blk v tagged₁ (exclusive-others blk found)))
      ]

  -- A store keeps every other tag's data, or has written it back.
  pub store_in_set-others :
      (addr v : ℕ) {s' : CacheSet} {w' : Fifos}
      → store_in_set c s tag index addr size v w ≡ ok (s', w')
      → Kept s' w'
  unfolding store_in_set
  store_in_set-others addr v {s'} {w'} h = elim (Option-cases (cache_find_valid_block tag s)) [
    | inr (blk, found) ↦
        let hit : store_hit c s tag blk addr v w ≡ ok (s', w') = ground arith in
        store_hit-others addr blk v found hit
    | inl missed ↦
        let miss : store_miss c s tag index addr size v w ≡ ok (s', w') = ground arith in
        store_miss-others addr v miss
  ]

-- ===== src/Cache/ReadWrite.antt =====
-- opencxl/cxl/component/cache_controller.py: what is stored is what is loaded, and the controller
-- stays well formed.
use opencxl_core.Prelude.{
  [], ℕ, ◌<◌, ◌≡◌, refl, sym, ap, subst, ◌∙◌, inl, inr, arith, Bool, true, false, none, some, ◌==◌,
  length, replicate, length-modify, length-replicate, get_or-modify_self, ok, Option-cases,
  Bool-cases, Result-cases,
}
use opencxl_core.Prelude.Bits.{shl}
use opencxl_core.Cache.Fifo.{Fifos}
use opencxl_core.Cache.Blocks.{
  cache_exclusive, cache_modified, is_invalid, is_shared, CacheSet, block, new_block,
  cache_extract_block_state, cache_update_block_state, has_tag, cache_find_valid_block,
  cache_data_read, cache_data_write,
}
use opencxl_core.Cache.Controller.{
  CacheController, blk_size, new_controller, cache_extract_tag, cache_extract_set, set_at, put_set,
  cache_to_coh_state_lookup, free_block, load_in_set, cache_coherent_load, store_hit, store_miss,
  store_in_set, cache_coherent_store,
}
use opencxl_core.Cache.Change.{
  filled, restated, value-cache_data_read, blocks-restated, blocks-filled,
}
use opencxl_core.Cache.Address.{IsWellFormed, cache_extract_set-lt}
use opencxl_core.Cache.Coherent.{Holds, find_valid-in_range, found_after, new_after}
use opencxl_core.Cache.Retain.{free_block-Freed}
use opencxl_core.Cache.NoLoss.{tag-has_tag}

module _ (s : CacheSet) (tag blk v : ℕ) where
  abbrev rewritten : CacheSet
  rewritten = cache_data_write (cache_update_block_state s tag blk cache_modified) blk v

  rewritten_tag : has_tag tag (filled s tag cache_modified v (block s blk)) ≡ true
  rewritten_tag = tag-has_tag tag (filled s tag cache_modified v (block s blk)) refl refl

  Holds-rewritten : cache_find_valid_block tag s ≡ some blk → Holds rewritten tag v
  Holds-rewritten found =
      let (again, is) =
        found_after s rewritten tag blk (filled s tag cache_modified v)
          (blocks-filled s blk tag cache_modified v refl) found rewritten_tag in
      (blk, again, ap (λ b. b.value) is)

  Holds-written_new :
      cache_find_valid_block tag s ≡ none → blk < length s.blocks → Holds rewritten tag v
  Holds-written_new missed inside =
      let (again, is) =
        new_after s rewritten tag blk (filled s tag cache_modified v)
          (blocks-filled s blk tag cache_modified v refl) missed inside rewritten_tag in
      (blk, again, ap (λ b. b.value) is)

module _ (c : CacheController) (s : CacheSet) (tag index addr size v : ℕ) (w : Fifos) where
  store_hit-Holds :
      (blk : ℕ) {s' : CacheSet} {w' : Fifos}
      → cache_find_valid_block tag s ≡ some blk
      → store_hit c s tag blk addr v w ≡ ok (s', w')
      → Holds s' tag v
  unfolding store_hit cache_extract_block_state
  store_hit-Holds blk {s'} {w'} found h =
      let valid : is_invalid (block s blk).state ≡ false = ground arith in
      elim (Bool-cases (is_shared (block s blk).state)) [
        | inr alone ↦
            let last : rewritten s tag blk v ≡ s' = ground arith in
            subst (λ x. Holds x tag v) last (Holds-rewritten s tag blk v found)
        | inl shared ↦
            let s₁ = cache_update_block_state s tag blk cache_exclusive in
            let again =
              found_after s s₁ tag blk (restated s tag cache_exclusive)
                (blocks-restated s blk tag cache_exclusive refl) found
                (tag-has_tag tag (restated s tag cache_exclusive (block s blk)) refl refl) in
            let last : rewritten s₁ tag blk v ≡ s' = ground arith in
            subst (λ x. Holds x tag v) last (Holds-rewritten s₁ tag blk v again.0)
      ]

  store_miss-Holds :
      {s' : CacheSet} {w' : Fifos}
      → cache_find_valid_block tag s ≡ none
      → store_miss c s tag index addr size v w ≡ ok (s', w')
      → Holds s' tag v
  unfolding store_miss
  store_miss-Holds {s'} {w'} missed h = elim (Result-cases (free_block c s tag index size w)) [
    | inr (x, e) ↦ absurd (ground arith)
    | inl (((s₁, blk), w₁), e) ↦ elim (Result-cases (cache_to_coh_state_lookup c addr w₁)) [
      | inr (x, e') ↦ absurd (ground arith)
      | inl (r, e') ↦
          let freed = free_block-Freed c s tag index size w e in
          let last : rewritten s₁ tag blk v ≡ s' = ground arith in
          subst (λ x. Holds x tag v) last
            (Holds-written_new s₁ tag blk v (freed.absent missed) freed.inside)
    ]
  ]

  pub store_in_set-Holds :
      {s' : CacheSet} {w' : Fifos}
      → store_in_set c s tag index addr size v w ≡ ok (s', w')
      → Holds s' tag v
  unfolding store_in_set
  store_in_set-Holds {s'} {w'} h = elim (Option-cases (cache_find_valid_block tag s)) [
    | inr (blk, found) ↦
        let hit : store_hit c s tag blk addr v w ≡ ok (s', w') = ground arith in
        store_hit-Holds blk found hit
    | inl missed ↦
        let miss : store_miss c s tag index addr size v w ≡ ok (s', w') = ground arith in
        store_miss-Holds missed miss
  ]

  load_in_set_hit :
      Holds s tag v → (s' : CacheSet) × (load_in_set c s tag index addr size w ≡ ok ((s', v), w))
  unfolding load_in_set
  load_in_set_hit (blk, found, held) =
      let inside = (find_valid-in_range s tag blk found).0 in
      let value = value-cache_data_read s blk inside ∙ held in
      ((cache_data_read s blk).0, ground arith)

load_held :
    (c : CacheController) (addr size value : ℕ) (later : Fifos)
    → (size == blk_size) ≡ true
    → Holds (set_at c (cache_extract_set c addr)) (cache_extract_tag c addr) value
    → (c' : CacheController) × (cache_coherent_load c addr size later ≡ ok ((c', value), later))
unfolding cache_coherent_load
load_held c addr size value later sized held =
    let index = cache_extract_set c addr in
    let (s, hit) =
      load_in_set_hit c (set_at c index) (cache_extract_tag c addr) index addr size value later
        held in
    (put_set c index s, ground arith)

stored :
    (c : CacheController) (wf : IsWellFormed c) (addr : ℕ) (s : CacheSet) {value : ℕ}
    → Holds s (cache_extract_tag c addr) value
    → let c' = put_set c (cache_extract_set c addr) s in
      Holds (set_at c' (cache_extract_set c' addr)) (cache_extract_tag c' addr) value
unfolding cache_extract_tag cache_extract_set
stored c wf addr s {value} held =
    let index = cache_extract_set c addr in
    let inside : index < length c.sets =
      omega (arith, cache_extract_set-lt c wf addr, wf.sets_length) in
    let here =
      get_or-modify_self c.sets index (λ _. s) (record { blocks = []; counter = 0 }) inside in
    subst (λ t. Holds t (cache_extract_tag c addr) value) (sym here) held

-- A load that follows a store to the same address returns what was stored. It asks nothing of the
-- agents: the fifos, whatever they hold by then, stay as they are.
pub cache_coherent_load-store :
    (c : CacheController) (addr size value : ℕ) (w : Fifos) {c' : CacheController} {w' : Fifos}
    → IsWellFormed c
    → cache_coherent_store c addr size value w ≡ ok (c', w')
    → (later : Fifos)
    → (c'' : CacheController) × (cache_coherent_load c' addr size later ≡ ok ((c'', value), later))
unfolding cache_coherent_store
cache_coherent_load-store c addr size value w {c'} {w'} wf h later =
    let tag = cache_extract_tag c addr in
    let index = cache_extract_set c addr in
    let sized : (size == blk_size) ≡ true = ground arith in
    elim (Result-cases (store_in_set c (set_at c index) tag index addr size value w)) [
      | inr (x, e) ↦ absurd (ground arith)
      | inl ((s, w₁), e) ↦
          let held = store_in_set-Holds c (set_at c index) tag index addr size value w e in
          let last : put_set c index s ≡ c' = ground arith in
          subst
            (λ k.
              (c'' : CacheController) × (cache_coherent_load k addr size later
                ≡ ok ((c'', value), later)))
            last
            (load_held (put_set c index s) addr size value later sized (stored c wf addr s held))
    ]

-- The constructor makes a well-formed controller, whatever the logarithm returns, or raises.
pub new_controller-IsWellFormed :
    (int_log2 : ℕ → ℕ) (assoc_size set_size : ℕ) (has_bridge : Bool) {c : CacheController}
    → new_controller int_log2 assoc_size set_size has_bridge ≡ ok c
    → IsWellFormed c × (c.set_size ≡ set_size)
unfolding new_controller
new_controller-IsWellFormed int_log2 assoc_size set_size has_bridge {c} h =
    let fresh : CacheSet = record { blocks = replicate assoc_size new_block; counter = 0 } in
    elim (Bool-cases (assoc_size == shl 1 (int_log2 assoc_size))) [
      | inr odd ↦ absurd (ground arith)
      | inl even ↦ elim (Bool-cases (set_size == shl 1 (int_log2 set_size))) [
        | inr odd ↦ absurd (ground arith)
        | inl power ↦ (
          record {
            sets_power = ground arith;
            sets_length = ground (arith, length-replicate set_size fresh);
          },
          ground arith,
        )
      ]
    ]

put_set-IsWellFormed :
    (c : CacheController) (index : ℕ) (s : CacheSet)
    → IsWellFormed c
    → IsWellFormed (put_set c index s)
put_set-IsWellFormed c index s wf = record {
  sets_power = wf.sets_power;
  sets_length = length-modify c.sets index (λ _. s) ∙ wf.sets_length;
}

-- A load that returns leaves the controller well formed.
pub cache_coherent_load-IsWellFormed :
    (c : CacheController) (addr size : ℕ) (w : Fifos) {c' : CacheController} {v : ℕ} {w' : Fifos}
    → IsWellFormed c
    → cache_coherent_load c addr size w ≡ ok ((c', v), w')
    → IsWellFormed c'
unfolding cache_coherent_load
cache_coherent_load-IsWellFormed c addr size w wf h =
    let tag = cache_extract_tag c addr in
    let index = cache_extract_set c addr in
    elim (Result-cases (load_in_set c (set_at c index) tag index addr size w)) [
      | inr (x, e) ↦ absurd (ground arith)
      | inl (((s, _), _), e) ↦ subst IsWellFormed (ground arith) (put_set-IsWellFormed c index s wf)
    ]

-- A store that returns leaves the controller well formed.
pub cache_coherent_store-IsWellFormed :
    (c : CacheController) (addr size value : ℕ) (w : Fifos) {c' : CacheController} {w' : Fifos}
    → IsWellFormed c
    → cache_coherent_store c addr size value w ≡ ok (c', w')
    → IsWellFormed c'
unfolding cache_coherent_store
cache_coherent_store-IsWellFormed c addr size value w wf h =
    let tag = cache_extract_tag c addr in
    let index = cache_extract_set c addr in
    elim (Result-cases (store_in_set c (set_at c index) tag index addr size value w)) [
      | inr (x, e) ↦ absurd (ground arith)
      | inl ((s, _), e) ↦ subst IsWellFormed (ground arith) (put_set-IsWellFormed c index s wf)
    ]

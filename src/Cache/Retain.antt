-- ===== src/Cache/Retain.antt =====
-- opencxl/cxl/component/cache_controller.py: no valid block loses its data. Whatever a load or a
-- store does to a set, a block of another tag stays with its data, or has been written back to
-- its address.
use opencxl_core.Prelude.{
  ℕ, ◌<◌, ◌≡◌, refl, sym, ap, ap₂, subst, ◌∙◌, ◌⊎◌, inl, inr, arith, true, false, [], ◌∷◌, ◌++◌,
  none, some, length, get_or, modify, length-modify, get_or-modify_self, ok, Option-cases,
}
use native.Mathlib.Decide.{ℕ_discrete}
use opencxl_core.Cache.Fifo.{write_back, CacheRequest, Fifos}
use opencxl_core.Cache.Blocks.{
  is_invalid, CacheBlock, new_block, CacheSet, block, cache_find_invalid_block, has_tag,
  cache_find_valid_block,
}
use opencxl_core.Cache.Controller.{CacheController, assem_addr, evict, free_block}
use opencxl_core.Cache.Lookup.{find_block-some}
use opencxl_core.Cache.Change.{evicted, blocks-evicted}
use opencxl_core.Cache.Traffic.{Extends, Extends-refl, Sent, memory_store-sent}
use opencxl_core.Cache.Coherent.{
  Holds, find_valid-in_range, none_after, other_after, victim, evict_lem,
}

-- The packet that writes the data of a tag back.
abbrev pub written_back : CacheController → ℕ → ℕ → ℕ → ℕ → CacheRequest
written_back c index size tag value = record {
  type = write_back;
  addr = assem_addr c tag index;
  size = size;
  value = value;
}

-- What `free_block` leaves behind when it returns.
pub record Freed (c : CacheController) (index size : ℕ) (s s' : CacheSet) (tag blk : ℕ)
    (w w' : Fifos) : Type 0 where
  pub inside : blk < length s'.blocks
  pub free : is_invalid (block s' blk).state ≡ true
  pub extends : Extends w w'
  pub absent : cache_find_valid_block tag s ≡ none → cache_find_valid_block tag s' ≡ none
  pub others :
      (tag' value : ℕ)
      → Holds s tag' value
      → Holds s' tag' value ⊎ Sent w' (written_back c index size tag' value)

invalid_in_range :
    (s : CacheSet) (blk : ℕ)
    → cache_find_invalid_block s ≡ some blk
    → (blk < length s.blocks) × (is_invalid (block s blk).state ≡ true)
unfolding cache_find_invalid_block
invalid_in_range s blk h =
    let (k, e, p, q) = find_block-some (λ b. is_invalid b.state) s.blocks 0 blk h in
    let e' : blk ≡ k = omega arith in rw e' (p, q)

has_tag-evicted :
    (tag tag' : ℕ) (s : CacheSet) (b : CacheBlock) → has_tag tag' (evicted s tag b) ≡ false
has_tag-evicted tag tag' s b = ground arith

has_tag-tag : (tag : ℕ) (b : CacheBlock) → has_tag tag b ≡ true → b.tag ≡ tag
has_tag-tag tag b h = ground arith

module _ (c : CacheController) (s : CacheSet) (tag index size : ℕ) (w : Fifos) {s' : CacheSet}
    {blk : ℕ} {w' : Fifos} where
  evict-others :
      evict c s tag index size w ≡ ok ((s', blk), w')
      → (tag' value : ℕ) → Holds s tag' value
      → Holds s' tag' value ⊎ Sent w' (written_back c index size tag' value)
  evict-others h tag' value (j, found, held) =
      let (at, left, inside, stored) = evict_lem c s tag index size w h in
      let v = victim c s tag index size w in
      let change : s'.blocks ≡ modify s.blocks v (evicted s tag) =
        ap (λ t. t.blocks) left ∙ blocks-evicted s v tag in
      elim (ℕ_discrete j v) [
        | yes same ↦
            let (t, sent) = memory_store-sent c _ size _ w stored in
            let tagged = has_tag-tag tag' (block s j) (find_valid-in_range s tag' j found).1 in
            let packet : written_back c index size (block s v).tag (block s v).value
                ≡ written_back c index size tag' value =
              ap (λ k. written_back c index size (block s k).tag (block s k).value) (sym same)
              ∙ ap₂ (written_back c index size) tagged held in
            inr (t, w.sent, [], sent ∙ ap (λ p. w.sent ++ (t, p) ∷ []) packet)
        | no other ↦
            let (still, kept) =
              other_after s s' tag' v (evicted s tag) change j found other
                (has_tag-evicted tag tag' s (block s v)) in
            inl (j, still, ap (λ b. b.value) kept ∙ held)
      ]

  evict-Freed :
      evict c s tag index size w ≡ ok ((s', blk), w') → Freed c index size s s' tag blk w w'
  evict-Freed h =
      let (at, left, inside, stored) = evict_lem c s tag index size w h in
      let v = victim c s tag index size w in
      let change : s'.blocks ≡ modify s.blocks v (evicted s tag) =
        ap (λ t. t.blocks) left ∙ blocks-evicted s v tag in
      let after : block s' v ≡ evicted s tag (block s v) =
        ap (λ bs. get_or bs v new_block) change
        ∙ get_or-modify_self s.blocks v (evicted s tag) new_block inside in
      let (t, sent) = memory_store-sent c _ size _ w stored in
      record {
        inside = rw (at, change) (rw (length-modify s.blocks v (evicted s tag)) inside);
        free = rw at (rw after refl);
        extends = ((t, _) ∷ [], sent);
        absent = λ h'.
            none_after s s' tag v (evicted s tag) change h' (has_tag-evicted tag tag s (block s v));
        others = evict-others h;
      }

pub free_block-Freed :
    (c : CacheController) (s : CacheSet) (tag index size : ℕ) (w : Fifos) {s' : CacheSet} {blk : ℕ}
    {w' : Fifos}
    → free_block c s tag index size w ≡ ok ((s', blk), w')
    → Freed c index size s s' tag blk w w'
unfolding free_block
free_block-Freed c s tag index size w {s'} {blk} {w'} h =
    elim (Option-cases (cache_find_invalid_block s)) [
      | inl full ↦ evict-Freed c s tag index size w (ground arith)
      | inr (k, e) ↦
          let same_set : s ≡ s' = ground arith in
          let same_blk : k ≡ blk = ground arith in
          let same_fifos : w ≡ w' = ground arith in
          let (inside, free) = invalid_in_range s k e in
          let here : Freed c index size s s tag k w w = record {
            inside = inside;
            free = free;
            extends = Extends-refl w;
            absent = λ h'. h';
            others = λ tag' value held. inl held;
          } in
          subst (λ t. Freed c index size s t tag blk w w') same_set
            (subst (λ k. Freed c index size s s tag k w w') same_blk
              (subst (Freed c index size s s tag k w) same_fifos here))
    ]

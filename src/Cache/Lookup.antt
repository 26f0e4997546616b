-- ===== src/Cache/Lookup.antt =====
-- opencxl/cxl/component/cache_controller.py: what the searches through a set find, before and
-- after a block changes, and which block is chosen for replacement.
use opencxl_core.Prelude.{
  ℕ, zero, suc, ◌+◌, ◌<◌, ◌≡◌, ◌≢◌, refl, inl, inr, arith, Bool, true, false, List, [], ◌∷◌, none,
  some, length, get_or, modify, Bool-cases,
}
use opencxl_core.Cache.Blocks.{CacheBlock, new_block, find_block}

module _ (t : CacheBlock → Bool) where
  -- A block that was found is in range and passes the test.
  pub find_block-some :
      (bs : List CacheBlock) (i j : ℕ)
      → find_block t bs i ≡ some j
      → (k : ℕ) × (j ≡ i + k) × (k < length bs) × (t (get_or bs k new_block) ≡ true)
  unfolding find_block
  find_block-some [] i j h = absurd (ground arith)
  find_block-some (b ∷ bs) i j h = elim (Bool-cases (t b)) [
    | inl here ↦ (0, ground arith, omega arith, here)
    | inr later ↦
        let (k, e, p, q) = find_block-some bs (i + 1) j (ground arith) in
        (suc k, omega arith, omega arith, q)
  ]

  pub find_block-none :
      (bs : List CacheBlock) (i k : ℕ)
      → find_block t bs i ≡ none
      → k < length bs
      → t (get_or bs k new_block) ≡ false
  unfolding find_block
  find_block-none [] i k h p = absurd (omega arith)
  find_block-none (b ∷ bs) i zero h p = ground arith
  find_block-none (b ∷ bs) i (suc k) h p = find_block-none bs (i + 1) k (ground arith) (omega arith)

  -- The block that was found is found again, if it passes the test after a change.
  pub find_block-modify_found :
      (bs : List CacheBlock) (i k : ℕ) (f : CacheBlock → CacheBlock)
      → find_block t bs i ≡ some (i + k)
      → t (f (get_or bs k new_block)) ≡ true
      → find_block t (modify bs k f) i ≡ some (i + k)
  unfolding find_block
  find_block-modify_found [] i k f h p = absurd (ground arith)
  find_block-modify_found (b ∷ bs) i zero f h p = rw p (ground arith)
  find_block-modify_found (b ∷ bs) i (suc k) f h p = elim (Bool-cases (t b)) [
    | inl here ↦ absurd (ground arith)
    | inr later ↦
        let shift : i + suc k ≡ i + 1 + k = omega arith in
        rw later (rw shift (find_block-modify_found bs (i + 1) k f (ground arith) p))
  ]

  -- A changed block that passes the test is found, where no block passed it before.
  pub find_block-modify_new :
      (bs : List CacheBlock) (i k : ℕ) (f : CacheBlock → CacheBlock)
      → find_block t bs i ≡ none
      → k < length bs
      → t (f (get_or bs k new_block)) ≡ true
      → find_block t (modify bs k f) i ≡ some (i + k)
  unfolding find_block
  find_block-modify_new [] i k f h p q = absurd (omega arith)
  find_block-modify_new (b ∷ bs) i zero f h p q = rw q (ground arith)
  find_block-modify_new (b ∷ bs) i (suc k) f h p q =
      let shift : i + suc k ≡ i + 1 + k = omega arith in
      let later : t b ≡ false = ground arith in
      rw later (rw shift (find_block-modify_new bs (i + 1) k f (ground arith) (omega arith) q))

  -- A changed block that fails the test is not found, where no block passed it before.
  pub find_block-modify-none :
      (bs : List CacheBlock) (i k : ℕ) (f : CacheBlock → CacheBlock)
      → find_block t bs i ≡ none
      → t (f (get_or bs k new_block)) ≡ false
      → find_block t (modify bs k f) i ≡ none
  unfolding find_block
  find_block-modify-none [] i k f h q = refl
  find_block-modify-none (b ∷ bs) i zero f h q = rw q (ground arith)
  find_block-modify-none (b ∷ bs) i (suc k) f h q =
      let later : t b ≡ false = ground arith in
      rw later (find_block-modify-none bs (i + 1) k f (ground arith) q)

  -- A change to another block does not hide the block that was found, if it makes no block pass.
  pub find_block-modify_other :
      (bs : List CacheBlock) (i j k : ℕ) (f : CacheBlock → CacheBlock)
      → find_block t bs i ≡ some j
      → j ≢ i + k
      → t (f (get_or bs k new_block)) ≡ false
      → find_block t (modify bs k f) i ≡ some j
  unfolding find_block
  find_block-modify_other [] i j k f h n q = absurd (ground arith)
  find_block-modify_other (b ∷ bs) i j zero f h n q =
      let later : t b ≡ false = ground arith in rw q (ground arith)
  find_block-modify_other (b ∷ bs) i j (suc k) f h n q = elim (Bool-cases (t b)) [
    | inl here ↦ ground arith
    | inr later ↦
        rw later (find_block-modify_other bs (i + 1) j k f (ground arith) (λ e. n (omega arith)) q)
  ]

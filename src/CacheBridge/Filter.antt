-- ===== src/CacheBridge/Filter.antt =====
-- opencxl/cxl/component/root_complex/cache_coherency_bridge.py: which devices the snoop filter finds, and
-- the list of those that are to answer.
use mathlib.Core.List.{append-nil, append_assoc}
use native.Mathlib.Decide.{ℕ_discrete}
use opencxl_core.Prelude.{
  ℕ, zero, suc, ◌+◌, ◌%◌, ◌^◌, ◌≤◌, ◌<◌, ◌≡◌, ◌≢◌, ◌⊎◌, inr, refl, ap, arith, Bool, true, false,
  ◌||◌, ◌==◌, List, [], ◌∷◌, ◌++◌, map, some, length, range, ok,
}
use opencxl_core.CxlMem.{addr_field, get_address}
use opencxl_core.CxlCache.{
  D2hReqPacket, H2dPacket, h2d_req_packet, h2d_snp_inv, d2h_req_address, create_h2d_req,
}
use opencxl_core.CacheBridge.{CacheBridge, holders, pop, snoop_invalidate_caches}

-- The list has the number.
unfoldable pub has : ℕ → List ℕ → Bool
has i [] = false
has i (j ∷ js) = i == j || has i js

pub has-holders :
    (sf : ℕ → ℕ → Bool) (addr id i : ℕ) (is : List ℕ)
    → i ≢ id
    → sf i addr ≡ true
    → has i is ≡ true
    → has i (holders sf addr (some id) is) ≡ true
unfolding has holders
has-holders sf addr id i [] ne hit h = ground arith
has-holders sf addr id i (j ∷ js) ne hit h = elim (ℕ_discrete i j) [
  | yes e ↦ ground (arith, ap (λ k. sf k addr) e)
  | no n ↦ ground (arith, has-holders sf addr id i js ne hit)
]

-- What the filter finds, the list of the ids has, and the device that asks is not among it.
pub has-holders_conv :
    (sf : ℕ → ℕ → Bool) (addr id i : ℕ) (is : List ℕ)
    → has i (holders sf addr (some id) is) ≡ true
    → has i is ≡ true
unfolding has holders
has-holders_conv sf addr id i [] h = h
has-holders_conv sf addr id i (j ∷ js) h = ground (arith, has-holders_conv sf addr id i js)

pub has-range : (start n i : ℕ) → start ≤ i → i < start + n → has i (range start n) ≡ true
unfolding has
has-range start zero i l h = absurd (omega arith)
has-range start (suc n) i l h = elim (ℕ_discrete i start) [
  | yes e ↦ ground arith
  | no ne ↦ ground (arith, has-range (start + 1) n i)
]

pub has-range_conv : (start n i : ℕ) → has i (range start n) ≡ true → i < start + n
unfolding has
has-range_conv start zero i h = absurd (ground arith)
has-range_conv start (suc n) i h = ground (arith, has-range_conv (start + 1) n i)

-- An element of a list stays in it, or is the one popped; and nothing else comes in.
pub has-pop :
    (i j : ℕ) (js : List ℕ)
    → has i (j ∷ js) ≡ true
    → (has i (pop j js).0 ≡ true) ⊎ (i ≡ (pop j js).1)
unfolding has pop
has-pop i j [] h = inr (ground arith)
has-pop i j (k ∷ ks) h = ground (arith, has-pop i k ks)

pub has-pop_conv : (i j : ℕ) (js : List ℕ) → has i (pop j js).0 ≡ true → has i (j ∷ js) ≡ true
unfolding has pop
has-pop_conv i j [] h = absurd (ground arith)
has-pop_conv i j (k ∷ ks) h = ground (arith, has-pop_conv i k ks)

pub has-popped : (j : ℕ) (js : List ℕ) → has (pop j js).1 (j ∷ js) ≡ true
unfolding has pop
has-popped j [] = ground arith
has-popped j (k ∷ ks) = ground (arith, has-popped k ks)

pub length-pop : (j : ℕ) (js : List ℕ) → length (pop j js).0 ≡ length js
unfolding pop
length-pop j [] = refl
length-pop j (k ∷ ks) = ap suc (length-pop k ks)

pub aligned : (p : D2hReqPacket) → ((d2h_req_address p % 64) == 0) ≡ true
unfolding d2h_req_address get_address
aligned p = ground arith

-- The snoop that goes to a device.
abbrev pub invalidation : ℕ → ℕ → H2dPacket
invalidation addr id =
    h2d_req_packet
      (record { cache_opcode = h2d_snp_inv; addr = addr_field addr; cache_id = id % 2 ^ 4 })

pub snoop_invalidate_caches_lem :
    (addr : ℕ) (ids : List ℕ) (b : CacheBridge)
    → ((addr % 64) == 0) ≡ true
    → snoop_invalidate_caches addr ids b
      ≡ ok (record b { host_to_target = b.host_to_target ++ map (invalidation addr) ids })
unfolding snoop_invalidate_caches create_h2d_req
snoop_invalidate_caches_lem addr [] b h = ground (arith, append-nil b.host_to_target)
snoop_invalidate_caches_lem addr (id ∷ ids) b h =
    let u : CacheBridge = record b {
      host_to_target = b.host_to_target ++ invalidation addr id ∷ [];
    } in
    ground (
      arith,
      snoop_invalidate_caches_lem addr ids u h,
      append_assoc b.host_to_target (invalidation addr id ∷ []) (map (invalidation addr) ids),
    )

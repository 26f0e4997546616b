-- ===== src/CacheBridge/Exclusive.antt =====
-- opencxl/cxl/component/root_complex/cache_coherency_bridge.py: the exclusive owner of a line.
use mathlib.Core.List.{append-nil}
use opencxl_core.Prelude.{
  ℕ, zero, suc, ◌<◌, ◌≡◌, ◌≢◌, ◌↔◌, refl, arith, true, List, [], ◌∷◌, ◌++◌, map, some, length,
  range, ok,
}
use opencxl_core.Cache.Fifo.{CacheResponse, snp_inv}
use opencxl_core.CxlCache.{
  D2hReqPacket, D2hRspPacket, cache_rd_own_no_data, d2h_req_address, create_h2d_rsp, h2d_rsp_packet,
  go, state_exclusive,
}
use opencxl_core.HomeAgent.{coh_state_init, coh_state_start}
use opencxl_core.CacheBridge.{
  CacheBridge, device_packet, snoop_filter_find_cache_list, own_start, process_cxl_d2h_req_packet,
}
use opencxl_core.CacheBridge.Loop.{process_current, step, steps, steps_last}
use opencxl_core.CacheBridge.Own.{
  AllDropped, wait_for, IsPending, all_answered, owned, owned-sf_device, owned-others, last_turn,
}
use opencxl_core.CacheBridge.Filter.{
  has, has-holders, has-holders_conv, has-range, has-range_conv, aligned, invalidation,
  snoop_invalidate_caches_lem,
}

-- The bridge when the snoops are sent.
abbrev pub snooped : D2hReqPacket → CacheBridge → CacheBridge
snooped p b =
    let list = snoop_filter_find_cache_list (d2h_req_address p) (some p.cache_id) b in
    record b {
      cache_list = list;
      host_to_target = b.host_to_target ++ map (invalidation (d2h_req_address p)) list;
      state = wait_for (length list);
    }

pub own_start_lem : (p : D2hReqPacket) (b : CacheBridge) → own_start p b ≡ ok (snooped p b)
unfolding own_start
own_start_lem p b = go (snoop_filter_find_cache_list (d2h_req_address p) (some p.cache_id) b) refl
  where
    go :
        (l : List ℕ)
        → snoop_filter_find_cache_list (d2h_req_address p) (some p.cache_id) b ≡ l
        → own_start p b ≡ ok (snooped p b)
    go [] e = ground (arith, append-nil b.host_to_target)
    go (i ∷ is) e = ground (
      arith,
      snoop_invalidate_caches_lem (d2h_req_address p) (i ∷ is) (record b { cache_list = i ∷ is })
          (aligned p),
    )

-- The first turn goes on from there.
first_turn :
    (p : D2hReqPacket) (b : CacheBridge)
    → b.state ≡ coh_state_start
    → b.packet ≡ device_packet p
    → p.cache_opcode ≡ cache_rd_own_no_data
    → step b ≡ step (snooped p b)
unfolding step process_current process_cxl_d2h_req_packet
first_turn p b s q own =
    elim (length (snoop_filter_find_cache_list (d2h_req_address p) (some p.cache_id) b))
        as (λ n.
          length (snoop_filter_find_cache_list (d2h_req_address p) (some p.cache_id) b) ≡ n
          → step b ≡ step (snooped p b)) [
            | zero ↦ λ e. ground (arith, own_start_lem p b)
            | suc n ↦ λ e. ground (arith, own_start_lem p b)
          ]
      refl

pub found-lt :
    (p : D2hReqPacket) (b : CacheBridge) (i : ℕ)
    → has i (snoop_filter_find_cache_list (d2h_req_address p) (some p.cache_id) b) ≡ true
    → i < b.num_cache_devices
unfolding snoop_filter_find_cache_list
found-lt p b i h =
    let ids = range 0 b.num_cache_devices in
    let known =
      has-range_conv 0 b.num_cache_devices i
        (has-holders_conv b.sf_device (d2h_req_address p) p.cache_id i ids h) in
    omega arith

snooped-IsPending :
    (p : D2hReqPacket) (b : CacheBridge)
    → b.packet ≡ device_packet p
    → IsPending p
        (snooped p b)
        (length (snoop_filter_find_cache_list (d2h_req_address p) (some p.cache_id) b))
        (snooped p b)
unfolding snoop_filter_find_cache_list
snooped-IsPending p b q = record {
  waits = refl;
  current = q;
  count = refl;
  listed = λ i lt ne hit.
      has-holders b.sf_device (d2h_req_address p) p.cache_id i (range 0 b.num_cache_devices) ne hit
        (has-range 0 b.num_cache_devices i (omega arith) (omega (arith, lt)));
  in_range = λ i h. found-lt p b i h;
  others = λ i a ne. refl;
  devices = refl;
  sent = refl;
  answers = refl;
  asked = refl;
}

-- A device that asks to own a line, with one response for each device that the filter finds and one of
-- the host's cache: after one turn more than there are responses, each of those devices has been sent one
-- snoop, in the order of their numbers, and then the device its grant; the host's cache has been asked to
-- drop the line; and the filter has the line for that device and no other, and other lines as before.
pub own-exclusive :
    (p : D2hReqPacket) (b : CacheBridge) (rs : List D2hRspPacket) (c : CacheResponse)
    (cs : List CacheResponse)
    → b.state ≡ coh_state_start
    → b.packet ≡ device_packet p
    → p.cache_opcode ≡ cache_rd_own_no_data
    → p.cache_id < b.num_cache_devices
    → b.d2h_rsp ≡ rs
    → length rs ≡ length (snoop_filter_find_cache_list (d2h_req_address p) (some p.cache_id) b)
    → AllDropped rs
    → b.snoop_responses ≡ c ∷ cs
    → (b' : CacheBridge) × (steps (suc (length rs)) b ≡ ok b')
      × (b'.state ≡ coh_state_init)
      × (b'.host_to_target
          ≡ b.host_to_target
            ++ map
                (invalidation (d2h_req_address p))
                (snoop_filter_find_cache_list (d2h_req_address p) (some p.cache_id) b)
            ++ h2d_rsp_packet (create_h2d_rsp p.cache_id go state_exclusive 0) ∷ [])
      × (b'.snoop_requests
          ≡ b.snoop_requests
            ++ record { type = snp_inv; addr = d2h_req_address p; size = 0; value = 0 } ∷ [])
      × ((i : ℕ)
          → i < b.num_cache_devices
          → (b'.sf_device i (d2h_req_address p) ≡ true) ↔ (i ≡ p.cache_id))
      × ((i a : ℕ) → a ≢ d2h_req_address p → b'.sf_device i a ≡ b.sf_device i a)
unfolding steps
own-exclusive p b rs c cs s q own lt r l d a =
    let (u, run, pending, none_left) =
      all_answered p (snooped p b) (length rs) (snooped p b) rs (rw l (snooped-IsPending p b q)) own
        r refl d in
    let done = last_turn p (snooped p b) u c cs pending own lt a none_left in
    (
      owned p (snooped p b) cs u,
      ground (arith, first_turn p b s q own, steps_last (length rs) (snooped p b) run done),
      refl,
      ground (arith, pending.sent),
      ground (arith, pending.asked),
      λ i small. owned-sf_device p (snooped p b) u cs i pending small,
      λ i x ne. owned-others p (snooped p b) u cs i x pending ne,
    )

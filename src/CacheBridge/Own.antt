-- ===== src/CacheBridge/Own.antt =====
-- opencxl/cxl/component/root_complex/cache_coherency_bridge.py: a device that asks to own a line, from its
-- request to the response.
use native.Mathlib.Decide.{ℕ_discrete}
use opencxl_core.Prelude.{
  ℕ, zero, suc, ◌<◌, ◌≡◌, ◌≢◌, ◌⊎◌, ◌↔◌, ◌&&◌, if◌then◌else◌, refl, ap, arith, true, false, List,
  [], ◌∷◌, ◌++◌, length, ok, ◌==◌, lt→ltb, ==_iff,
}
use opencxl_core.Cache.Fifo.{CacheResponse, snp_inv, rsp_i}
use opencxl_core.CxlCache.{
  D2hReqPacket, D2hRspPacket, cache_rd_own_no_data, rsp_i_hit_i, rsp_i_hit_se, d2h_req_address,
  create_h2d_rsp, h2d_rsp_packet, go, state_exclusive, d2h_rsp_number,
}
use opencxl_core.HomeAgent.{CohState, coh_state_init, coh_state_wait, coh_state_done}
use opencxl_core.CacheBridge.{
  CacheBridge, device_packet, pop, own_done, snoop_host, snoop_filter_update, current_address,
  rsp_status, process_cxl_d2h_req_packet, process_cxl_d2h_rsp_packet,
}
use opencxl_core.CacheBridge.Loop.{process_current, process_rsp, step, steps}
use opencxl_core.CacheBridge.Filter.{has, has-pop, has-pop_conv, has-popped, length-pop}

-- Every response says that the device has the line no more, and forwards nothing.
abbrev pub AllDropped : List D2hRspPacket → Type 0
AllDropped [] = Unit
AllDropped (r ∷ rs) =
    ((r.cache_opcode ≡ rsp_i_hit_i) ⊎ (r.cache_opcode ≡ rsp_i_hit_se)) × AllDropped rs

abbrev pub wait_for : ℕ → CohState
wait_for zero = coh_state_done
wait_for (suc n) = coh_state_wait

-- The request `p` waits for that many responses: each other device that the filter still has is on the
-- list. The rest is as it was when the snoops had been sent, in `b₀`.
pub record IsPending (p : D2hReqPacket) (b₀ : CacheBridge) (n : ℕ) (b : CacheBridge) : Type 0 where
  pub waits : b.state ≡ wait_for n
  pub current : b.packet ≡ device_packet p
  pub count : length b.cache_list ≡ n
  pub listed :
      (i : ℕ)
      → i < b₀.num_cache_devices
      → i ≢ p.cache_id
      → b.sf_device i (d2h_req_address p) ≡ true
      → has i b.cache_list ≡ true
  pub in_range : (i : ℕ) → has i b.cache_list ≡ true → i < b₀.num_cache_devices
  pub others : (i a : ℕ) → a ≢ d2h_req_address p → b.sf_device i a ≡ b₀.sf_device i a
  pub devices : b.num_cache_devices ≡ b₀.num_cache_devices
  pub sent : b.host_to_target ≡ b₀.host_to_target
  pub answers : b.snoop_responses ≡ b₀.snoop_responses
  pub asked : b.snoop_requests ≡ b₀.snoop_requests

nonempty : (l : List ℕ) (n : ℕ) → length l ≡ suc n → (i : ℕ) × (is : List ℕ) × (l ≡ i ∷ is)
nonempty [] n h = absurd (omega arith)
nonempty (i ∷ is) n h = (i, is, refl)

module _ (p : D2hReqPacket) (b₀ : CacheBridge) where
  -- The bridge when a response has taken one off the list.
  abbrev popped : ℕ → ℕ → List ℕ → CacheBridge → CacheBridge
  popped n i is b = record b {
    cache_rsp = rsp_i;
    cache_list = (pop i is).0;
    state = wait_for n;
    sf_device = λ id a.
        if (id == (pop i is).1) && (a == d2h_req_address p) then false else b.sf_device id a;
  }

  answered :
      (n : ℕ) (b : CacheBridge) (r : D2hRspPacket) (i : ℕ) (is : List ℕ)
      → IsPending p b₀ (suc n) b
      → b.cache_list ≡ i ∷ is
      → (r.cache_opcode ≡ rsp_i_hit_i) ⊎ (r.cache_opcode ≡ rsp_i_hit_se)
      → process_cxl_d2h_rsp_packet r b ≡ ok (popped n i is b)
  unfolding process_cxl_d2h_rsp_packet rsp_status current_address snoop_filter_update d2h_rsp_number
  answered zero b r i is pending e d =
      let last =
        lt→ltb (pop i is).1 b.num_cache_devices (
          omega (arith, pending.in_range (pop i is).1 (rw e (has-popped i is)), pending.devices)) in
      ground (arith, length-pop i is, last, ap length e)
  answered (suc n) b r i is pending e d =
      let last =
        lt→ltb (pop i is).1 b.num_cache_devices (
          omega (arith, pending.in_range (pop i is).1 (rw e (has-popped i is)), pending.devices)) in
      ground (arith, length-pop i is, last, ap length e)

  answered-IsPending :
      (n : ℕ) (b : CacheBridge) (i : ℕ) (is : List ℕ)
      → IsPending p b₀ (suc n) b
      → b.cache_list ≡ i ∷ is
      → IsPending p b₀ n (popped n i is b)
  answered-IsPending n b i is pending e = record {
    waits = refl;
    current = pending.current;
    count = omega (arith, length-pop i is, ap length e, pending.count);
    listed = λ j lt ne hit.
        ground (arith, has-pop j i is, pending.listed j lt ne, ==_iff j (pop i is).1);
    in_range = λ j h. pending.in_range j (rw e (has-pop_conv j i is h));
    others = λ j a ne. ground (arith, pending.others j a ne);
    devices = pending.devices;
    sent = pending.sent;
    answers = pending.answers;
    asked = pending.asked;
  }

  refilled :
      (n : ℕ) (b : CacheBridge) (rs : List D2hRspPacket)
      → IsPending p b₀ n b
      → IsPending p b₀ n (record b { d2h_rsp = rs })
  refilled n b rs pending = record {
    waits = pending.waits;
    current = pending.current;
    count = pending.count;
    listed = pending.listed;
    in_range = pending.in_range;
    others = pending.others;
    devices = pending.devices;
    sent = pending.sent;
    answers = pending.answers;
    asked = pending.asked;
  }

  waiting :
      (n : ℕ) (b : CacheBridge)
      → IsPending p b₀ (suc n) b
      → p.cache_opcode ≡ cache_rd_own_no_data
      → process_current b ≡ ok b
  unfolding process_current process_cxl_d2h_req_packet
  waiting n b pending own = ground (arith, pending.waits, pending.current)

  turn :
      (n : ℕ) (b : CacheBridge) (r : D2hRspPacket) (rs : List D2hRspPacket) (i : ℕ) (is : List ℕ)
      → IsPending p b₀ (suc n) b
      → p.cache_opcode ≡ cache_rd_own_no_data
      → b.d2h_rsp ≡ r ∷ rs
      → b.cache_list ≡ i ∷ is
      → (r.cache_opcode ≡ rsp_i_hit_i) ⊎ (r.cache_opcode ≡ rsp_i_hit_se)
      → step b ≡ ok (popped n i is (record b { d2h_rsp = rs }))
  unfolding step process_rsp
  turn n b r rs i is pending own e l d = ground (
    arith,
    pending.waits,
    waiting n b pending own,
    answered n (record b { d2h_rsp = rs }) r i is (refilled (suc n) b rs pending) l d,
  )

  -- As many turns as responses, and none is waited for.
  pub all_answered :
      (n : ℕ) (b : CacheBridge) (rs : List D2hRspPacket)
      → IsPending p b₀ n b
      → p.cache_opcode ≡ cache_rd_own_no_data
      → b.d2h_rsp ≡ rs
      → length rs ≡ n
      → AllDropped rs
      → (b' : CacheBridge) × (steps n b ≡ ok b') × IsPending p b₀ zero b' × (b'.d2h_rsp ≡ [])
  unfolding steps
  all_answered zero b [] pending own e l d = (b, refl, pending, e)
  all_answered zero b (r ∷ rs) pending own e l d = absurd (omega arith)
  all_answered (suc n) b [] pending own e l d = absurd (omega arith)
  all_answered (suc n) b (r ∷ rs) pending own e l (d, ds) =
      let (i, is, f) = nonempty b.cache_list n pending.count in
      let b₁ : CacheBridge = record b { d2h_rsp = rs } in
      let next = answered-IsPending n b₁ i is (refilled (suc n) b rs pending) f in
      let (b', run, done, none_left) =
        all_answered n (popped n i is b₁) rs next own refl (omega arith) ds in
      (b', ground (arith, turn n b r rs i is pending own e f d), done, none_left)

  -- The bridge when the host's cache has answered too, and the response is sent.
  abbrev pub owned : List CacheResponse → CacheBridge → CacheBridge
  owned cs b = record b {
    snoop_requests =
        b.snoop_requests
        ++ record { type = snp_inv; addr = d2h_req_address p; size = 0; value = 0 } ∷ [];
    snoop_responses = cs;
    host_to_target =
        b.host_to_target ++ h2d_rsp_packet (create_h2d_rsp p.cache_id go state_exclusive 0) ∷ [];
    state = coh_state_init;
    sf_device =
        λ id a. if (id == p.cache_id) && (a == d2h_req_address p) then true else b.sf_device id a;
  }

  pub last_turn :
      (b : CacheBridge) (c : CacheResponse) (cs : List CacheResponse)
      → IsPending p b₀ zero b
      → p.cache_opcode ≡ cache_rd_own_no_data
      → p.cache_id < b₀.num_cache_devices
      → b₀.snoop_responses ≡ c ∷ cs
      → b.d2h_rsp ≡ []
      → step b ≡ ok (owned cs b)
  unfolding step process_current process_rsp process_cxl_d2h_req_packet own_done snoop_host
      snoop_filter_update
  last_turn b c cs pending own lt s none_left =
      let known = lt→ltb p.cache_id b.num_cache_devices (omega (arith, pending.devices)) in
      ground (arith, pending.waits, pending.current, pending.answers, known)

  empty : (l : List ℕ) → length l ≡ 0 → (i : ℕ) → has i l ≡ true → ⊥
  unfolding has
  empty [] e i h = ground arith
  empty (j ∷ js) e i h = omega arith

  -- Then no other device is in the filter.
  pub owned-sf_device :
      (b : CacheBridge) (cs : List CacheResponse) (i : ℕ)
      → IsPending p b₀ zero b
      → i < b₀.num_cache_devices
      → ((owned cs b).sf_device i (d2h_req_address p) ≡ true) ↔ (i ≡ p.cache_id)
  owned-sf_device b cs i pending lt = elim (ℕ_discrete i p.cache_id) [
    | yes e ↦ (λ h. e, λ h. ground arith)
    | no ne ↦ (
      λ h. absurd (empty b.cache_list pending.count i (pending.listed i lt ne (ground arith))),
      λ e. absurd (ne e),
    )
  ]

  pub owned-others :
      (b : CacheBridge) (cs : List CacheResponse) (i a : ℕ)
      → IsPending p b₀ zero b
      → a ≢ d2h_req_address p
      → (owned cs b).sf_device i a ≡ b₀.sf_device i a
  owned-others b cs i a pending ne = ground (arith, pending.others i a ne)

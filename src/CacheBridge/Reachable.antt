-- ===== src/CacheBridge/Reachable.antt =====
-- opencxl/cxl/component/root_complex/cache_coherency_bridge.py: every state that the bridge reaches among its
-- neighbours is well-formed, and in such a state a device's response is processed.
use opencxl_core.Prelude.{
  ◌≡◌, ◌≢◌, inl, inr, refl, subst, ◌∙◌, arith, List, [], ◌∷◌, ok, Result, ◌>>=◌, Result-cases,
}
use opencxl_core.Cache.Fifo.{CacheRequest}
use opencxl_core.CxlCache.{
  D2hReqPacket, D2hRspPacket, D2hReqOpcode, cache_rd_own_no_data, cache_rd_shared,
  cache_dirty_evict,
}
use opencxl_core.HomeAgent.{
  CohState, coh_state_init, coh_state_start, coh_state_wait, coh_state_done,
}
use opencxl_core.CacheBridge.{
  CacheBridge, BridgePacket, no_packet, host_packet, device_packet, own_start, own_done,
  shared_start, shared_done, in_state_done, process_cxl_d2h_req_packet,
  process_upstream_host_to_target_packets,
}
use opencxl_core.CacheBridge.Loop.{
  select, take_host, take_device, process_current, process_rsp, step,
}
use opencxl_core.CacheBridge.Invariant.{
  IsRanged, own_start-IsRanged, own_done-IsRanged, evict_start-IsRanged, evict_done-IsRanged,
  shared_start-IsRanged, shared_done-IsRanged, rsp-IsRanged,
}

-- The bridge waits only for devices, and only for a device's request.
pub record IsWellFormed (b : CacheBridge) : Type 0 where
  pub ranged : IsRanged b
  pub waits : b.state ≡ coh_state_wait → b.cache_list ≢ []
  pub current : b.state ≡ coh_state_wait → (p : D2hReqPacket) × (b.packet ≡ device_packet p)

-- A part for START, and a part for DONE.
both :
    (p : D2hReqPacket) (b : CacheBridge) (f g : CacheBridge → Result CacheBridge) {b' : CacheBridge}
    → ((u : CacheBridge)
        → f b ≡ ok u
        → IsRanged u × (u.packet ≡ b.packet) × (u.state ≡ coh_state_wait → u.cache_list ≢ []))
    → ((u v : CacheBridge)
        → IsRanged u
        → u.state ≡ coh_state_done
        → g u ≡ ok v
        → IsRanged v × (v.state ≢ coh_state_wait))
    → b.packet ≡ device_packet p
    → (f b >>= in_state_done g) ≡ ok b'
    → IsWellFormed b'
both p b f g {b'} first second q h = elim (Result-cases (f b)) [
  | inr (x, e) ↦ absurd (ground arith)
  | inl (u, e) ↦
      let (ranged, same, waits) = first u e in
      let rest : in_state_done g u ≡ ok b' = ground arith in
      go u ranged same waits u.state refl rest
]
  where
    still :
        (u : CacheBridge)
        → IsRanged u
        → u.packet ≡ b.packet
        → (u.state ≡ coh_state_wait → u.cache_list ≢ [])
        → u ≡ b'
        → IsWellFormed b'
    still u ranged same waits e =
        subst IsWellFormed e
          (record { ranged = ranged; waits = waits; current = λ w. (p, same ∙ q) })

    go :
        (u : CacheBridge)
        → IsRanged u
        → u.packet ≡ b.packet
        → (u.state ≡ coh_state_wait → u.cache_list ≢ [])
        → (s : CohState) → u.state ≡ s
        → in_state_done g u ≡ ok b'
        → IsWellFormed b'
    go u ranged same waits coh_state_done s rest =
        let (r, not_waiting) = second u b' ranged s (ground arith) in
        record {
          ranged = r;
          waits = λ w. absurd (not_waiting w);
          current = λ w. absurd (not_waiting w);
        }
    go u ranged same waits coh_state_init s rest = still u ranged same waits (ground arith)
    go u ranged same waits coh_state_start s rest = still u ranged same waits (ground arith)
    go u ranged same waits coh_state_wait s rest = still u ranged same waits (ground arith)

not_waiting : (b : CacheBridge) → IsRanged b → b.state ≢ coh_state_wait → IsWellFormed b
not_waiting b ranged other = record {
  ranged = ranged;
  waits = λ w. absurd (other w);
  current = λ w. absurd (other w);
}

device-IsWellFormed :
    (p : D2hReqPacket) (b : CacheBridge) {b' : CacheBridge}
    → IsWellFormed b
    → b.packet ≡ device_packet p
    → process_cxl_d2h_req_packet p b ≡ ok b'
    → IsWellFormed b'
unfolding process_cxl_d2h_req_packet
device-IsWellFormed p b {b'} wf q h = go p.cache_opcode b.state refl refl
  where
    done : {v : CacheBridge} → IsRanged v × (v.state ≢ coh_state_wait) → v ≡ b' → IsWellFormed b'
    done {v} (r, other) e = subst IsWellFormed e (not_waiting v r other)

    same : b ≡ b' → IsWellFormed b'
    same e = subst IsWellFormed e wf

    go : (o : D2hReqOpcode) (s : CohState) → p.cache_opcode ≡ o → b.state ≡ s → IsWellFormed b'
    go cache_rd_own_no_data coh_state_start o s =
        both p b (own_start p) (own_done p) (λ u e. own_start-IsRanged p b wf.ranged e)
          (λ u v r t e.
            (let (r', i) = own_done-IsRanged p u {b' = v} r e in (r', λ w. ground arith)))
          q (ground arith)
    go cache_rd_own_no_data coh_state_done o s =
        let (r, i) = own_done-IsRanged p b {b' = b'} wf.ranged (ground arith) in
        not_waiting b' r (λ w. ground arith)
    go cache_rd_own_no_data _ o s = same (ground arith)
    go cache_rd_shared coh_state_start o s =
        both p b (shared_start p) (shared_done p) (λ u e. shared_start-IsRanged p b wf.ranged e)
          (λ u v r t e. shared_done-IsRanged p u r t e) q (ground arith)
    go cache_rd_shared coh_state_done o s =
        let (r, other) = shared_done-IsRanged p b wf.ranged s (ground arith) in
        not_waiting b' r other
    go cache_rd_shared _ o s = same (ground arith)
    go cache_dirty_evict coh_state_start o s =
        let (r, i) = evict_start-IsRanged p b {b' = b'} wf.ranged (ground arith) in
        not_waiting b' r (λ w. ground arith)
    go cache_dirty_evict coh_state_done o s =
        let (r, other) = evict_done-IsRanged p b wf.ranged s (ground arith) in
        not_waiting b' r other
    go cache_dirty_evict _ o s = same (ground arith)
    go _ _ o s = same (ground arith)

host-IsWellFormed :
    (r : CacheRequest) (b : CacheBridge) {b' : CacheBridge}
    → IsWellFormed b
    → process_upstream_host_to_target_packets r b ≡ ok b'
    → IsWellFormed b'
unfolding process_upstream_host_to_target_packets
host-IsWellFormed r b {b'} wf h = record {
  ranged = record {
    in_range = λ i q. ground (arith, wf.ranged.in_range i);
    known = λ i a q. ground (arith, wf.ranged.known i a);
    uqid-lt = ground (arith, wf.ranged.uqid-lt);
  };
  waits = λ w.
      (let e : b ≡ b' = ground arith in subst (λ u. u.cache_list ≢ []) e (wf.waits (ground arith)));
  current = λ w.
      (let e : b ≡ b' = ground arith in
        subst (λ u. (p : D2hReqPacket) × (u.packet ≡ device_packet p)) e
          (wf.current (ground arith)));
}

process_current-IsWellFormed :
    (b : CacheBridge) {b' : CacheBridge}
    → IsWellFormed b
    → process_current b ≡ ok b'
    → IsWellFormed b'
unfolding process_current
process_current-IsWellFormed b {b'} wf h = go b.packet refl
  where
    go : (q : BridgePacket) → b.packet ≡ q → IsWellFormed b'
    go no_packet e = absurd (ground arith)
    go (host_packet r) e = host-IsWellFormed r b wf (ground arith)
    go (device_packet p) e = device-IsWellFormed p b wf e (ground arith)

process_rsp-IsWellFormed :
    (b : CacheBridge) {b' : CacheBridge} → IsWellFormed b → process_rsp b ≡ ok b' → IsWellFormed b'
unfolding process_rsp
process_rsp-IsWellFormed b {b'} wf h = go b.d2h_rsp refl
  where
    go : (l : List D2hRspPacket) → b.d2h_rsp ≡ l → IsWellFormed b'
    go [] e = (let f : b ≡ b' = ground arith in subst IsWellFormed f wf)
    go (r ∷ rs) e =
        let u : CacheBridge = record b { d2h_rsp = rs } in
        let ranged : IsRanged u = record {
          in_range = wf.ranged.in_range;
          known = wf.ranged.known;
          uqid-lt = wf.ranged.uqid-lt;
        } in
        let (r', same, waits) = rsp-IsRanged r u {b' = b'} ranged wf.waits (ground arith) in
        record {
          ranged = r';
          waits = λ w. (waits w).1;
          current = λ w. (let (p, f) = wf.current (waits w).0 in (p, same ∙ f));
        }

select-IsWellFormed :
    (b : CacheBridge) → IsRanged b → b.state ≡ coh_state_init → IsWellFormed (select b)
unfolding select take_host take_device
select-IsWellFormed b ranged s =
    not_waiting (select b)
      (record {
        in_range = λ i q. ground (arith, ranged.in_range i);
        known = λ i a q. ground (arith, ranged.known i a);
        uqid-lt = ground (arith, ranged.uqid-lt);
      })
      (λ w. ground arith)

pub step-IsWellFormed :
    (b : CacheBridge) {b' : CacheBridge} → IsWellFormed b → step b ≡ ok b' → IsWellFormed b'
unfolding step
step-IsWellFormed b {b'} wf h = go b.state refl
  where
    running : (process_current b >>= process_rsp) ≡ ok b' → IsWellFormed b'
    running e = elim (Result-cases (process_current b)) [
      | inl (u, f) ↦
          process_rsp-IsWellFormed u (process_current-IsWellFormed b {b' = u} wf f) (ground arith)
      | inr (x, f) ↦ absurd (ground arith)
    ]

    go : (s : CohState) → b.state ≡ s → IsWellFormed b'
    go coh_state_init s =
        let e : select b ≡ b' = ground arith in
        subst IsWellFormed e (select-IsWellFormed b wf.ranged s)
    go coh_state_start s = running (ground arith)
    go coh_state_wait s = running (ground arith)
    go coh_state_done s = running (ground arith)

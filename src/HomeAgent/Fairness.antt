-- ===== src/HomeAgent/Fairness.antt =====
-- opencxl/cxl/component/root_complex/home_agent.py: the two sides are served in turn.
use mathlib.Core.List.{append-nil, append_assoc}
use opencxl_core.Prelude.{
  ◌≡◌, ◌≢◌, refl, sym, ap, ◌∙◌, subst, ◌⊎◌, inl, inr, arith, true, false, Option, List, [], ◌∷◌,
  ◌++◌, ok, ◌>>=◌, Result-cases,
}
use opencxl_core.Cache.Fifo.{CacheRequest, CacheResponse, CacheResponseStatus}
use opencxl_core.CxlMem.{
  S2mPacket, s2m_ndr_packet, s2m_drs_packet, s2m_bisnp_packet, other_packet, S2mBisnpPacket,
  S2mNdrPacket, S2mDrsPacket, MetaValue,
}
use opencxl_core.HomeAgent.{
  HomeAgent, CohState, coh_state_init, coh_state_start, coh_state_wait, coh_state_done,
  CurrentPacket, no_packet, snoop_packet, host_packet, complete, respond_with, respond,
  process_cxl_s2m_rsp_packet, process_cxl_s2m_drs_packet, snoop_answered,
  process_cxl_s2m_bisnp_packet,
}
use opencxl_core.HomeAgent.Loop.{
  process_upstream_host_to_target_packets, take_snoop, select, process_current, process_ndr,
  process_drs, step, process_downstream_target_to_host_packet, Step, turn, asked, answered, arrived,
  Run, here, next,
}

-- The two queues that the loop serves in turn, and whose turn it is, are as they were.
abbrev Kept : HomeAgent → HomeAgent → Type 0
Kept h h' =
    (h'.fc_host_run ≡ h.fc_host_run)
    × (h'.s2m_bisnp ≡ h.s2m_bisnp)
    × (h'.cache_requests ≡ h.cache_requests)
    × (h'.stop_process ≡ h.stop_process)

Kept-trans : (h u v : HomeAgent) → Kept h u → Kept u v → Kept h v
Kept-trans h u v (a, b, c, d) (e, f, g, i) = (e ∙ a, f ∙ b, g ∙ c, i ∙ d)

complete-Kept : (h : HomeAgent) {h' : HomeAgent} → complete h ≡ ok h' → Kept h h'
unfolding complete
complete-Kept h e = ground arith

respond-Kept :
    (status : Option CacheResponseStatus) (m : MetaValue) (h : HomeAgent) {h' : HomeAgent}
    → respond status m h ≡ ok h'
    → Kept h h'
unfolding respond respond_with
respond-Kept status m h e = ground arith

rsp-Kept :
    (p : S2mNdrPacket) (h : HomeAgent) {h' : HomeAgent}
    → process_cxl_s2m_rsp_packet p h ≡ ok h'
    → Kept h h'
unfolding process_cxl_s2m_rsp_packet respond respond_with complete
rsp-Kept p h e = ground arith

drs-Kept :
    (p : S2mDrsPacket) (h : HomeAgent) {h' : HomeAgent}
    → process_cxl_s2m_drs_packet p h ≡ ok h'
    → Kept h h'
unfolding process_cxl_s2m_drs_packet
drs-Kept p h e = ground arith

host-Kept :
    (r : CacheRequest) (h : HomeAgent) {h' : HomeAgent}
    → process_upstream_host_to_target_packets r h ≡ ok h'
    → Kept h h'
unfolding process_upstream_host_to_target_packets
host-Kept r h e = ground arith

answered-Kept :
    (p : S2mBisnpPacket) (r : CacheResponse) (h : HomeAgent) {h' : HomeAgent}
    → snoop_answered p r h ≡ ok h'
    → Kept h h'
unfolding snoop_answered
answered-Kept p r h e = ground arith

bisnp-Kept :
    (p : S2mBisnpPacket) (h : HomeAgent) {h' : HomeAgent}
    → process_cxl_s2m_bisnp_packet p h ≡ ok h'
    → Kept h h'
unfolding process_cxl_s2m_bisnp_packet snoop_answered
bisnp-Kept p h e = ground arith

current-Kept : (h : HomeAgent) {h' : HomeAgent} → process_current h ≡ ok h' → Kept h h'
unfolding process_current
current-Kept h {h'} = go h.cur_state.packet refl
  where
    go : (p : CurrentPacket) → h.cur_state.packet ≡ p → process_current h ≡ ok h' → Kept h h'
    go no_packet q e = absurd (ground arith)
    go (host_packet r) q e = host-Kept r h {h' = h'} (ground arith)
    go (snoop_packet p) q e = bisnp-Kept p h {h' = h'} (ground arith)

ndr-Kept : (h : HomeAgent) {h' : HomeAgent} → process_ndr h ≡ ok h' → Kept h h'
unfolding process_ndr
ndr-Kept h {h'} = go h.s2m_ndr refl
  where
    go : (l : List S2mNdrPacket) → h.s2m_ndr ≡ l → process_ndr h ≡ ok h' → Kept h h'
    go [] q e = ground arith
    go (p ∷ rest) q e = rsp-Kept p (record h { s2m_ndr = rest }) {h' = h'} (ground arith)

process_drs-Kept : (h : HomeAgent) {h' : HomeAgent} → process_drs h ≡ ok h' → Kept h h'
unfolding process_drs
process_drs-Kept h {h'} = go h.s2m_drs refl
  where
    go : (l : List S2mDrsPacket) → h.s2m_drs ≡ l → process_drs h ≡ ok h' → Kept h h'
    go [] q e = ground arith
    go (p ∷ rest) q e = drs-Kept p (record h { s2m_drs = rest }) {h' = h'} (ground arith)

-- A turn outside INIT takes nothing from the two queues.
pub step-Kept :
    (h : HomeAgent) {h' : HomeAgent}
    → h.cur_state.state ≢ coh_state_init
    → step h ≡ ok h'
    → Kept h h'
unfolding step
step-Kept h {h'} n e =
    let body : (process_current h >>= process_ndr >>= process_drs) ≡ ok h' = ground arith in
    elim (Result-cases (process_current h)) [
      | inr (x, q) ↦ absurd (ground arith)
      | inl (u, q) ↦ elim (Result-cases (process_ndr u)) [
        | inr (x, q') ↦ absurd (ground arith)
        | inl (v, q') ↦
            Kept-trans h u h' (current-Kept h q)
              (Kept-trans u v h' (ndr-Kept u q') (process_drs-Kept v {h' = h'} (ground arith)))
      ]
    ]

-- The snoop `p` is the first to come when the loop next takes a packet.
abbrev pub Waiting : S2mBisnpPacket → HomeAgent → Type 0
Waiting p h = (h.fc_host_run ≡ true) × (rest : List S2mBisnpPacket) × (h.s2m_bisnp ≡ p ∷ rest)

-- No request of the cache has been taken between the two states.
abbrev pub NotTaken : HomeAgent → HomeAgent → Type 0
NotTaken h h' = (more : List (Option CacheRequest)) × (h'.cache_requests ≡ h.cache_requests ++ more)

-- The loop has just taken the snoop `p`.
abbrev pub Taken : S2mBisnpPacket → HomeAgent → Type 0
Taken p h =
    (h.cur_state.packet ≡ snoop_packet p)
    × (h.cur_state.state ≡ coh_state_start)
    × (h.fc_host_run ≡ false)

select-Waiting :
    (p : S2mBisnpPacket) (h : HomeAgent)
    → Waiting p h
    → Taken p (select h) × ((select h).cache_requests ≡ h.cache_requests)
unfolding select take_snoop
select-Waiting p h (f, rest, e) = ground arith

-- The queues have only grown.
abbrev Grown : HomeAgent → HomeAgent → Type 0
Grown h v =
    (v.fc_host_run ≡ h.fc_host_run)
    × ((more : List S2mBisnpPacket) × (v.s2m_bisnp ≡ h.s2m_bisnp ++ more))
    × NotTaken h v

Kept-Grown : (h v : HomeAgent) → Kept h v → Grown h v
Kept-Grown h v (a, b, c, d) =
    (a, ([], b ∙ sym (append-nil h.s2m_bisnp)), ([], c ∙ sym (append-nil h.cache_requests)))

Grown-Waiting : (p : S2mBisnpPacket) (h v : HomeAgent) → Grown h v → Waiting p h → Waiting p v
Grown-Waiting p h v (a, (more, b), c) (f, rest, e) = (a ∙ f, rest ++ more, ground arith)

-- The environment only adds to the queues.
arrived-Grown :
    (q : S2mPacket) (h v : HomeAgent)
    → process_downstream_target_to_host_packet q h ≡ ok v
    → Grown h v
unfolding process_downstream_target_to_host_packet
arrived-Grown (s2m_ndr_packet q) h v e = Kept-Grown h v (ground arith)
arrived-Grown (s2m_drs_packet q) h v e = Kept-Grown h v (ground arith)
arrived-Grown (s2m_bisnp_packet q) h v e =
    (ground arith, (q ∷ [], ground arith), ([], ground (arith, append-nil h.cache_requests)))
arrived-Grown other_packet h v e = absurd (ground arith)

-- One step of a run towards the snoop.
step-Waiting :
    (p : S2mBisnpPacket) (h v : HomeAgent)
    → Waiting p h
    → Step h v
    → Grown h v ⊎ (Taken p v × NotTaken h v)
unfolding step
step-Waiting p h v w (turn running e) = go h.cur_state.state refl
  where
    go : (s : CohState) → h.cur_state.state ≡ s → Grown h v ⊎ (Taken p v × NotTaken h v)
    go coh_state_init q =
        let same : select h ≡ v = ground arith in
        let t = select-Waiting p h w in
        let queue : v.cache_requests ≡ h.cache_requests ++ [] =
          ap (λ u. u.cache_requests) (sym same) ∙ t.1 ∙ sym (append-nil h.cache_requests) in
        inr (subst (Taken p) same t.0, ([], queue))
    go coh_state_start q = inl (Kept-Grown h v (step-Kept h (ground arith) e))
    go coh_state_wait q = inl (Kept-Grown h v (step-Kept h (ground arith) e))
    go coh_state_done q = inl (Kept-Grown h v (step-Kept h (ground arith) e))
step-Waiting p h v w (asked r e) = inl (
  ap (λ u. u.fc_host_run) e,
  ([], ground (arith, append-nil h.s2m_bisnp)),
  (r ∷ [], ap (λ u. u.cache_requests) e),
)
step-Waiting p h v w (answered r e) = inl (Kept-Grown h v (ground arith))
step-Waiting p h v w (arrived q e) = inl (arrived-Grown q h v e)

NotTaken-trans : (h u v : HomeAgent) → NotTaken h u → NotTaken u v → NotTaken h v
NotTaken-trans h u v (xs, e) (ys, q) =
    (xs ++ ys, q ∙ ap (λ l. l ++ ys) e ∙ append_assoc h.cache_requests xs ys)

Grown-refl : (h : HomeAgent) → Grown h h
Grown-refl h = Kept-Grown h h (refl, refl, refl, refl)

-- A snoop that waits while it is the device's turn is served before any further request of the
-- cache. Along every run from such a state, either the snoop is still the first to come and no request
-- of the cache has been taken, or the run passes through a state in which the loop has just taken the
-- snoop, and up to there no request of the cache was taken.
pub Run-Waiting :
    (p : S2mBisnpPacket) (h v : HomeAgent)
    → Waiting p h
    → Run h v
    → (Waiting p v × NotTaken h v)
      ⊎ ((u : HomeAgent) × Run h u × Run u v × Taken p u × NotTaken h u)
Run-Waiting p h v w here = inl (w, (Grown-refl h).2)
Run-Waiting p h v w (next {u} r s) = elim (Run-Waiting p h u w r) [
  | inr (t, before, after, taken, kept) ↦ inr (t, before, next after s, taken, kept)
  | inl (waiting, kept) ↦ elim (step-Waiting p u v waiting s) [
    | inl grown ↦ inl (Grown-Waiting p u v grown waiting, NotTaken-trans h u v kept grown.2)
    | inr (taken, more) ↦ inr (v, next r s, here, taken, NotTaken-trans h u v kept more)
  ]
]

-- ===== src/Cache/Traffic.antt =====
-- opencxl/cxl/component/cache_controller.py: what the operations send to the coherency agents.
use mathlib.Core.List.{append-nil, append_assoc}
use opencxl_core.Prelude.{
  ℕ, ◌≡◌, refl, sym, ap, ◌∙◌, inl, inr, arith, List, [], ◌∷◌, ◌++◌, ok, Bool-cases, Result-cases,
}
use opencxl_core.Cache.Ranges.{MemAddrType, get_mem_addr_type, dram, cxl_cached_bi}
use opencxl_core.Cache.Fifo.{
  CacheRequest, CacheResponse, Target, coh_agent, coh_bridge, Fifos, write_back, snp_data, snp_inv,
  exchange-sent,
}
use opencxl_core.Cache.Controller.{
  CacheController, get_cache_fifo, request_on, memory_load, memory_store, snoop_invalidate,
  cache_to_coh_state_lookup,
}

-- `w'` has sent what `w` has sent, and perhaps more.
abbrev pub Extends : Fifos → Fifos → Type 0
Extends w w' = (more : List (Target × CacheRequest)) × (w'.sent ≡ w.sent ++ more)

pub Extends-refl : (w : Fifos) → Extends w w
Extends-refl w = ([], sym (append-nil w.sent))

pub Extends-trans : (w w' w'' : Fifos) → Extends w w' → Extends w' w'' → Extends w w''
Extends-trans w w' w'' (xs, p) (ys, q) =
    (xs ++ ys, q ∙ ap (λ t. t ++ ys) p ∙ append_assoc w.sent xs ys)

-- The packet was sent, on one of the fifos.
abbrev pub Sent : Fifos → CacheRequest → Type 0
Sent w packet =
    (t : Target) × (before after : List (Target × CacheRequest)) × (w.sent
      ≡ before ++ (t, packet) ∷ after)

pub Sent-Extends :
    (w w' : Fifos) (packet : CacheRequest) → Extends w w' → Sent w packet → Sent w' packet
Sent-Extends w w' packet (more, e) (t, before, after, h) = (
  t,
  before,
  after ++ more,
  e ∙ ap (λ l. l ++ more) h ∙ append_assoc before ((t, packet) ∷ after) more,
)

pub request_on-sent :
    (c : CacheController) (t : Target) (packet : CacheRequest) (w : Fifos) {r : CacheResponse}
    {w' : Fifos}
    → request_on c t packet w ≡ ok (r, w')
    → w'.sent ≡ w.sent ++ (t, packet) ∷ []
unfolding request_on
request_on-sent c coh_agent packet w h = exchange-sent coh_agent packet w h
request_on-sent c coh_bridge packet w {r} {w'} h = elim (Bool-cases c.has_bridge) [
  | inl there ↦ exchange-sent coh_bridge packet w {r = (r, w')} (ground arith)
  | inr missing ↦ absurd (ground arith)
]

pub memory_store-sent :
    (c : CacheController) (addr size value : ℕ) (w : Fifos) {w' : Fifos}
    → memory_store c addr size value w ≡ ok (tt, w')
    → (t : Target) × (w'.sent
        ≡ w.sent ++ (t, record { type = write_back; addr = addr; size = size; value = value }) ∷ [])
unfolding memory_store
memory_store-sent c addr size value w {w'} h =
    let packet : CacheRequest = record {
      type = write_back;
      addr = addr;
      size = size;
      value = value;
    } in
    elim (Result-cases (get_cache_fifo c addr)) [
      | inr (x, e) ↦ absurd (ground arith)
      | inl (t, e) ↦ elim (Result-cases (request_on c t packet w)) [
        | inr (x, e') ↦ absurd (ground arith)
        | inl (r, e') ↦
            let last : r.1 ≡ w' = ground arith in
            (t, ap (λ v. v.sent) (sym last) ∙ request_on-sent c t packet w e')
      ]
    ]

pub memory_load-sent :
    (c : CacheController) (addr size : ℕ) (w : Fifos) {r : CacheResponse} {w' : Fifos}
    → memory_load c addr size w ≡ ok (r, w')
    → (t : Target) × (w'.sent
        ≡ w.sent ++ (t, record { type = snp_data; addr = addr; size = size; value = 0 }) ∷ [])
unfolding memory_load
memory_load-sent c addr size w {r} {w'} h =
    let packet : CacheRequest = record { type = snp_data; addr = addr; size = size; value = 0 } in
    elim (Result-cases (get_cache_fifo c addr)) [
      | inr (x, e) ↦ absurd (ground arith)
      | inl (t, e) ↦
          let answered : request_on c t packet w ≡ ok (r, w') = ground arith in
          (t, request_on-sent c t packet w answered)
    ]

pub snoop_invalidate-Extends :
    (c : CacheController) (t : Target) (addr : ℕ) (w : Fifos) {w' : Fifos}
    → snoop_invalidate c t addr w ≡ ok (tt, w')
    → Extends w w'
unfolding snoop_invalidate
snoop_invalidate-Extends c t addr w {w'} h =
    let packet : CacheRequest = record { type = snp_inv; addr = addr; size = 0; value = 0 } in
    elim (Result-cases (request_on c t packet w)) [
      | inr (x, e) ↦ absurd (ground arith)
      | inl (r, e) ↦
          let last : r.1 ≡ w' = ground arith in
          ((t, packet) ∷ [], ap (λ v. v.sent) (sym last) ∙ request_on-sent c t packet w e)
    ]

pub cache_to_coh_state_lookup-Extends :
    (c : CacheController) (addr : ℕ) (w : Fifos) {w' : Fifos}
    → cache_to_coh_state_lookup c addr w ≡ ok (tt, w')
    → Extends w w'
unfolding cache_to_coh_state_lookup
cache_to_coh_state_lookup-Extends c addr w {w'} h = go (get_mem_addr_type c.memory_ranges addr) refl
  where
    go : (type : MemAddrType) → get_mem_addr_type c.memory_ranges addr ≡ type → Extends w w'
    go dram e =
        let answered : snoop_invalidate c coh_bridge addr w ≡ ok (tt, w') = ground arith in
        snoop_invalidate-Extends c coh_bridge addr w answered
    go cxl_cached_bi e =
        let answered : snoop_invalidate c coh_agent addr w ≡ ok (tt, w') = ground arith in
        snoop_invalidate-Extends c coh_agent addr w answered
    go _ e = ([], ground (arith, append-nil w.sent))

-- ===== src/CacheBridge/Invariant.antt =====
-- opencxl/cxl/component/root_complex/cache_coherency_bridge.py: what holds of the bridge after any steps.
use opencxl_core.Prelude.{ℕ, ◌<◌, ◌≡◌, ◌≢◌, refl, ap, arith, Bool, true, List, [], ◌∷◌, ok}
use opencxl_core.CxlCache.{D2hReqPacket, D2hRspPacket, create_h2d_data}
use opencxl_core.HomeAgent.{coh_state_init, coh_state_wait, coh_state_done}
use opencxl_core.CacheBridge.{
  CacheBridge, snoop_filter_update, snoop_read_latest_data, own_start, own_done, evict_start,
  evict_done, shared_start, shared_done, share, host_line, snoop_host, sync_memory_read,
  get_next_uqid, current_address, rsp_status, process_cxl_d2h_rsp_packet,
}
use opencxl_core.CacheBridge.Filter.{has, has-pop_conv}
use opencxl_core.CacheBridge.Exclusive.{found-lt, own_start_lem}

-- The list and the snoop filter name devices that there are, and the next UQID fits into its field.
pub record IsRanged (b : CacheBridge) : Type 0 where
  pub in_range : (i : ℕ) → has i b.cache_list ≡ true → i < b.num_cache_devices
  pub known : (i a : ℕ) → b.sf_device i a ≡ true → i < b.num_cache_devices
  pub uqid-lt : b.uqid < 4096

snoop_filter_update-IsRanged :
    (addr id : ℕ) (device_in : Bool) (b : CacheBridge) {b' : CacheBridge}
    → IsRanged b
    → snoop_filter_update addr id device_in b ≡ ok b'
    → IsRanged b'
unfolding snoop_filter_update
snoop_filter_update-IsRanged addr id device_in b wf h = record {
  in_range = λ i q. ground (arith, wf.in_range i);
  known = λ i a q. ground (arith, wf.known i a);
  uqid-lt = ground (arith, wf.uqid-lt);
}

share-IsRanged :
    (p : D2hReqPacket) (value : ℕ) (b : CacheBridge) {b' : CacheBridge}
    → IsRanged b
    → share p value b ≡ ok b'
    → IsRanged b' × (b'.state ≡ coh_state_init)
unfolding share create_h2d_data snoop_filter_update
share-IsRanged p value b wf h = (
  record {
    in_range = λ i q. ground (arith, wf.in_range i);
    known = λ i a q. ground (arith, wf.known i a);
    uqid-lt = ground (arith, wf.uqid-lt);
  },
  ground arith,
)

pub own_done-IsRanged :
    (p : D2hReqPacket) (b : CacheBridge) {b' : CacheBridge}
    → IsRanged b
    → own_done p b ≡ ok b'
    → IsRanged b' × (b'.state ≡ coh_state_init)
unfolding own_done snoop_host snoop_filter_update
own_done-IsRanged p b wf h = (
  record {
    in_range = λ i q. ground (arith, wf.in_range i);
    known = λ i a q. ground (arith, wf.known i a);
    uqid-lt = ground (arith, wf.uqid-lt);
  },
  ground arith,
)

pub evict_start-IsRanged :
    (p : D2hReqPacket) (b : CacheBridge) {b' : CacheBridge}
    → IsRanged b
    → evict_start p b ≡ ok b'
    → IsRanged b' × (b'.state ≡ coh_state_done)
unfolding evict_start get_next_uqid
evict_start-IsRanged p b wf h = (
  record {
    in_range = λ i q. ground (arith, wf.in_range i);
    known = λ i a q. ground (arith, wf.known i a);
    uqid-lt = ground (arith, wf.uqid-lt);
  },
  ground arith,
)

pub evict_done-IsRanged :
    (p : D2hReqPacket) (b : CacheBridge) {b' : CacheBridge}
    → IsRanged b
    → b.state ≡ coh_state_done
    → evict_done p b ≡ ok b'
    → IsRanged b' × (b'.state ≢ coh_state_wait)
unfolding evict_done current_address snoop_filter_update
evict_done-IsRanged p b wf s h = (
  record {
    in_range = λ i q. ground (arith, wf.in_range i);
    known = λ i a q. ground (arith, wf.known i a);
    uqid-lt = ground (arith, wf.uqid-lt);
  },
  λ w. ground arith,
)

host_line-IsRanged :
    (addr value : ℕ) (b b' : CacheBridge)
    → IsRanged b
    → host_line addr b ≡ ok (value, b')
    → IsRanged b'
unfolding host_line snoop_host sync_memory_read
host_line-IsRanged addr value b b' wf h = record {
  in_range = λ i q. ground (arith, wf.in_range i);
  known = λ i a q. ground (arith, wf.known i a);
  uqid-lt = ground (arith, wf.uqid-lt);
}

pub shared_done-IsRanged :
    (p : D2hReqPacket) (b : CacheBridge) {b' : CacheBridge}
    → IsRanged b
    → b.state ≡ coh_state_done
    → shared_done p b ≡ ok b'
    → IsRanged b' × (b'.state ≢ coh_state_wait)
unfolding shared_done host_line snoop_host sync_memory_read share create_h2d_data
    snoop_filter_update
shared_done-IsRanged p b wf s h = (
  record {
    in_range = λ i q. ground (arith, wf.in_range i);
    known = λ i a q. ground (arith, wf.known i a);
    uqid-lt = ground (arith, wf.uqid-lt);
  },
  λ w. ground arith,
)

pub shared_start-IsRanged :
    (p : D2hReqPacket) (b : CacheBridge) {b' : CacheBridge}
    → IsRanged b
    → shared_start p b ≡ ok b'
    → IsRanged b' × (b'.packet ≡ b.packet) × (b'.state ≡ coh_state_wait → b'.cache_list ≢ [])
unfolding shared_start snoop_read_latest_data
shared_start-IsRanged p b wf h = (
  record {
    in_range = λ i q. ground (arith, wf.in_range i, found-lt p b i);
    known = λ i a q. ground (arith, wf.known i a);
    uqid-lt = ground (arith, wf.uqid-lt);
  },
  ground arith,
  λ w. ground arith,
)

pub own_start-IsRanged :
    (p : D2hReqPacket) (b : CacheBridge) {b' : CacheBridge}
    → IsRanged b
    → own_start p b ≡ ok b'
    → IsRanged b' × (b'.packet ≡ b.packet) × (b'.state ≡ coh_state_wait → b'.cache_list ≢ [])
own_start-IsRanged p b wf h = (
  record {
    in_range = λ i q. ground (arith, wf.in_range i, own_start_lem p b, found-lt p b i);
    known = λ i a q. ground (arith, wf.known i a, own_start_lem p b);
    uqid-lt = ground (arith, wf.uqid-lt, own_start_lem p b);
  },
  ground (arith, own_start_lem p b),
  λ w. ground (arith, own_start_lem p b),
)

pub rsp-IsRanged :
    (r : D2hRspPacket) (b : CacheBridge) {b' : CacheBridge}
    → IsRanged b
    → (b.state ≡ coh_state_wait → b.cache_list ≢ [])
    → process_cxl_d2h_rsp_packet r b ≡ ok b'
    → IsRanged b'
      × (b'.packet ≡ b.packet)
      × (b'.state ≡ coh_state_wait → (b.state ≡ coh_state_wait) × (b'.cache_list ≢ []))
unfolding process_cxl_d2h_rsp_packet rsp_status current_address snoop_filter_update
rsp-IsRanged r b {b'} wf waits h = go b.cache_list refl
  where
    go :
        (l : List ℕ)
        → b.cache_list ≡ l
        → IsRanged b'
          × (b'.packet ≡ b.packet)
          × (b'.state ≡ coh_state_wait → (b.state ≡ coh_state_wait) × (b'.cache_list ≢ []))
    go [] e = absurd (ground arith)
    go (j ∷ js) e = (
      record {
        in_range = λ i q. ground (arith, wf.in_range i, has-pop_conv i j js, ap (has i) e);
        known = λ i a q. ground (arith, wf.known i a);
        uqid-lt = ground (arith, wf.uqid-lt);
      },
      ground arith,
      λ w. ground arith,
    )

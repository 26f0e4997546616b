-- ===== src/Router/Config.antt =====
-- opencxl/cxl/component/virtual_switch/routers.py: `ConfigSpaceRouter` over many requests.
use native.Mathlib.Decide.{ℕ_discrete}
use opencxl_core.Prelude.{
  ℕ, zero, suc, ◌+◌, ◌≤◌, ◌<◌, ◌≡◌, ◌⊎◌, inl, inr, refl, ap, ap₂, ◌∙◌, arith, Bool, true, ◌||◌,
  if◌then◌else◌, ◌==◌, ltb→lt, List, [], ◌∷◌, Option-cases, Bool-cases, ltb, length, Result, ok,
}
use opencxl_core.Number.{to_be16}
use opencxl_core.CxlIo.{is_cfg_read, is_cfg_write}
use opencxl_core.CxlIo.Cfg.{CxlIoCfgReqHeader}
use opencxl_core.Pci.Routing.{PciRoutingTable, get_config_space_target_port}
use opencxl_core.Router.{
  Links, Decision, to_port, answer, put, route, IoPacket, base_of, cfg_req_header, is_cxl_io,
  unsupported_request, decide_config,
}
use opencxl_core.Router.Order.{
  selected, answers, route_all, route_all-in_order, InOrder, selected_lem, answers_lem,
}

-- The sum of a function over the numbers below `n`.
unfoldable pub sum : (ℕ → ℕ) → ℕ → ℕ
sum f zero = 0
sum f (suc n) = sum f n + f n

sum-zero : (n : ℕ) → sum (λ i. 0) n ≡ 0
unfolding sum
sum-zero zero = refl
sum-zero (suc n) = omega (arith, sum-zero n)

sum-congr : (f g : ℕ → ℕ) (n : ℕ) → ((i : ℕ) → f i ≡ g i) → sum f n ≡ sum g n
unfolding sum
sum-congr f g zero h = refl
sum-congr f g (suc n) h = ap₂ ◌+◌ (sum-congr f g n h) (h n)

abbrev one_at : ℕ → ℕ → ℕ
one_at j i = if j == i then 1 else 0

sum-one_at_beyond : (f : ℕ → ℕ) (j n : ℕ) → n ≤ j → sum (λ i. one_at j i + f i) n ≡ sum f n
unfolding sum
sum-one_at_beyond f j zero h = refl
sum-one_at_beyond f j (suc n) h = ground (arith, sum-one_at_beyond f j n)

sum-one_at : (f : ℕ → ℕ) (j n : ℕ) → j < n → sum (λ i. one_at j i + f i) n ≡ sum f n + 1
unfolding sum
sum-one_at f j zero h = absurd (omega arith)
sum-one_at f j (suc n) h = elim (ℕ_discrete j n) [
  | yes e ↦ ground (arith, sum-one_at_beyond f j n)
  | no ne ↦ ground (arith, sum-one_at f j n)
]

-- A request for configuration space: its kind is one of the two, and it has their header.
abbrev pub IsRequest : IoPacket → Type 0
IsRequest p =
    (is_cxl_io p ≡ true)
    × ((is_cfg_read (base_of p) || is_cfg_write (base_of p)) ≡ true)
    × ((h : CxlIoCfgReqHeader) × (cfg_req_header p ≡ ok h))

abbrev pub AllRequests : List IoPacket → Type 0
AllRequests [] = Unit
AllRequests (p ∷ ps) = IsRequest p × AllRequests ps

module _ (t : PciRoutingTable) (big : Bool) (random_id : ℕ → ℕ) where
  -- The router's decision about the packet of a turn, each completion with an id of its own.
  abbrev pub decide : ℕ → ℕ → IoPacket → Result (Decision IoPacket)
  decide turn = decide_config t big (random_id turn)

  -- A request goes to a port that there is, or is answered.
  decided :
      (turn n : ℕ) (p : IoPacket)
      → IsRequest p
      → ((port : ℕ) × (port < n) × (decide turn n p ≡ ok (to_port port)))
        ⊎ ((u : IoPacket) × (decide turn n p ≡ ok (answer u)))
  unfolding decide_config
  decided turn n p (io, kind, (h, e)) =
      elim (Option-cases (get_config_space_target_port t (to_be16 big h.dest_id))) [
        | inl unknown ↦ inr (unsupported_request t big (random_id turn) h, ground arith)
        | inr (port, known) ↦ elim (Bool-cases (ltb port n)) [
          | inl inside ↦ inl (port, ltb→lt port n inside, ground arith)
          | inr outside ↦ inr (unsupported_request t big (random_id turn) h, ground arith)
        ]
      ]

  -- Each request is in one place.
  counted :
      (n turn : ℕ) (ps : List IoPacket)
      → AllRequests ps
      → sum (λ i. length (selected decide n turn i ps)) n + length (answers decide n turn ps)
        ≡ length ps
  unfolding selected answers
  counted n turn [] all = omega (arith, sum-zero n)
  counted n turn (p ∷ ps) (r, rs) = elim (decided turn n p r) [
    | inl (port, lt, e) ↦
        let f = λ (i : ℕ). length (selected decide n (turn + 1) i ps) in
        let more : (i : ℕ) → length (selected decide n turn i (p ∷ ps)) ≡ one_at port i + f i =
          λ i. ap length (selected_lem decide n turn i p ps (to_port port) e) ∙ ground arith in
        omega (
          arith,
          sum-congr (λ i. length (selected decide n turn i (p ∷ ps))) (λ i. one_at port i + f i) n
              more,
          sum-one_at f port n lt,
          ap length (answers_lem decide n turn p ps (to_port port) e),
          counted n (turn + 1) ps rs,
        )
    | inr (u, e) ↦
        let f = λ (i : ℕ). length (selected decide n (turn + 1) i ps) in
        let same : (i : ℕ) → length (selected decide n turn i (p ∷ ps)) ≡ f i =
          λ i. ap length (selected_lem decide n turn i p ps (answer u) e) in
        omega (
          arith,
          sum-congr (λ i. length (selected decide n turn i (p ∷ ps))) f n same,
          ap length (answers_lem decide n turn p ps (answer u) e),
          counted n (turn + 1) ps rs,
        )
  ]

  taken :
      (turn : ℕ) (ps : List IoPacket) (l : Links IoPacket IoPacket)
      → AllRequests ps
      → (l' : Links IoPacket IoPacket) × (route_all decide turn ps l ≡ ok l')
  unfolding route_all route
  taken turn [] l all = (l, refl)
  taken turn (p ∷ ps) l (r, rs) = elim (decided turn (length l.downstream) p r) [
    | inl (port, lt, e) ↦
        let (l', h) = taken (turn + 1) ps (put p (to_port port) l) rs in (l', ground arith)
    | inr (u, e) ↦ let (l', h) = taken (turn + 1) ps (put p (answer u) l) rs in (l', ground arith)
  ]

  -- Requests for configuration space, any number in any order, are all taken without an exception. The
  -- queue of each vPPB then has, behind what it had, the requests that the router sends there, in their
  -- order; the host's queue has the answers to the rest, in the order of their requests; and the requests
  -- sent to all vPPBs and the answers together are as many as the requests.
  pub requests-routed :
      (ps : List IoPacket) (l : Links IoPacket IoPacket)
      → AllRequests ps
      → (l' : Links IoPacket IoPacket) × (route_all decide 0 ps l ≡ ok l')
        × InOrder decide (length l.downstream) 0 ps l l'
        × (sum (λ i. length (selected decide (length l.downstream) 0 i ps)) (length l.downstream)
              + length (answers decide (length l.downstream) 0 ps)
            ≡ length ps)
  requests-routed ps l all =
      let (l', h) = taken 0 ps l all in
      (l', h, route_all-in_order decide 0 ps l l' h, counted (length l.downstream) 0 ps all)

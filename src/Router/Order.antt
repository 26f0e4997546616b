-- ===== src/Router/Order.antt =====
-- opencxl/cxl/component/virtual_switch/routers.py: a router over many packets: order, and that none is lost.
use mathlib.Core.List.{append-nil, append_assoc}
use native.Mathlib.Decide.{ℕ_discrete}
use opencxl_core.Prelude.{
  ℕ, ◌+◌, ◌<◌, ◌≡◌, inl, inr, refl, sym, ap, ◌∙◌, arith, if◌then◌else◌, ◌==◌, List, [], ◌∷◌, ◌++◌,
  length, get_or, length-modify, get_or-modify_self, get_or-modify_ne, Result, ok, ◌>>=◌,
  Result-cases,
}
use opencxl_core.Router.{Links, Decision, to_port, answer, ignore, put, route}

-- The packets that the router decides to send to a port, and the answers that it decides to give. `decide`
-- is also told how many packets came before.
module _ {Down Up : Type 0} (decide : ℕ → ℕ → Down → Result (Decision Up)) (vppbs : ℕ) where
  unfoldable pub selected : ℕ → ℕ → List Down → List Down
  selected turn port [] = []
  selected turn port (p ∷ ps) =
      let rest = selected (turn + 1) port ps in
      elim (decide turn vppbs p) [
        | ok (to_port i) ↦ if i == port then p ∷ rest else rest
        | _ ↦ rest
      ]

  unfoldable pub answers : ℕ → List Down → List Up
  answers turn [] = []
  answers turn (p ∷ ps) =
      let rest = answers (turn + 1) ps in
      elim (decide turn vppbs p) [ ok (answer u) ↦ u ∷ rest | _ ↦ rest ]

module _ {Down Up : Type 0} (decide : ℕ → ℕ → Down → Result (Decision Up)) where
  -- The packets come one after another, the first of them as the given turn.
  unfoldable pub route_all : ℕ → List Down → Links Down Up → Result (Links Down Up)
  unfolding route
  route_all turn [] l = ok l
  route_all turn (p ∷ ps) l = route (decide turn) p l >>= route_all (turn + 1) ps

  abbrev pub queue : Links Down Up → ℕ → List Down
  queue l port = get_or l.downstream port []

  put_lem :
      (p : Down) (d : Decision Up) (l : Links Down Up) (port : ℕ)
      → port < length l.downstream
      → queue (put p d l) port
        ≡ queue l port ++ elim d [ to_port i ↦ if i == port then p ∷ [] else [] | _ ↦ [] ]
  unfolding put
  put_lem p (to_port i) l port lt = elim (ℕ_discrete i port) [
    | yes e ↦
        rw e (ground (arith, get_or-modify_self l.downstream port (λ queue. queue ++ p ∷ []) [] lt))
    | no ne ↦ ground (
      arith,
      get_or-modify_ne l.downstream i port (λ queue. queue ++ p ∷ []) [] ne,
      append-nil (queue l port),
    )
  ]
  put_lem p (answer u) l port lt = sym (append-nil (queue l port))
  put_lem p ignore l port lt = sym (append-nil (queue l port))

  put-upstream :
      (p : Down) (d : Decision Up) (l : Links Down Up)
      → (put p d l).upstream ≡ l.upstream ++ elim d [ answer u ↦ u ∷ [] | _ ↦ [] ]
  unfolding put
  put-upstream p (to_port i) l = sym (append-nil l.upstream)
  put-upstream p (answer u) l = refl
  put-upstream p ignore l = sym (append-nil l.upstream)

  put-length :
      (p : Down) (d : Decision Up) (l : Links Down Up)
      → length (put p d l).downstream ≡ length l.downstream
  unfolding put
  put-length p (to_port i) l = length-modify l.downstream i (λ queue. queue ++ p ∷ [])
  put-length p (answer u) l = refl
  put-length p ignore l = refl

  -- What a decision adds to the queue of a port, and to the host's.
  abbrev pub for_port : Down → Decision Up → ℕ → List Down
  for_port p d port = elim d [ to_port i ↦ if i == port then p ∷ [] else [] | _ ↦ [] ]

  abbrev pub for_host : Decision Up → List Up
  for_host d = elim d [ answer u ↦ u ∷ [] | _ ↦ [] ]

  pub selected_lem :
      (n turn port : ℕ) (p : Down) (ps : List Down) (d : Decision Up)
      → decide turn n p ≡ ok d
      → selected decide n turn port (p ∷ ps)
        ≡ for_port p d port ++ selected decide n (turn + 1) port ps
  unfolding selected
  selected_lem n turn port p ps (to_port i) e = ground arith
  selected_lem n turn port p ps (answer u) e = ground arith
  selected_lem n turn port p ps ignore e = ground arith

  pub answers_lem :
      (n turn : ℕ) (p : Down) (ps : List Down) (d : Decision Up)
      → decide turn n p ≡ ok d
      → answers decide n turn (p ∷ ps) ≡ for_host d ++ answers decide n (turn + 1) ps
  unfolding answers
  answers_lem n turn p ps (to_port i) e = ground arith
  answers_lem n turn p ps (answer u) e = ground arith
  answers_lem n turn p ps ignore e = ground arith

  -- The queues after some packets, for a number of vPPBs.
  abbrev pub InOrder : ℕ → ℕ → List Down → Links Down Up → Links Down Up → Type 0
  InOrder n turn ps l l' =
      (length l'.downstream ≡ n)
      × ((port : ℕ) → port < n → queue l' port ≡ queue l port ++ selected decide n turn port ps)
      × (l'.upstream ≡ l.upstream ++ answers decide n turn ps)

  in_order :
      (n turn : ℕ) (ps : List Down) (l : Links Down Up) {l' : Links Down Up}
      → length l.downstream ≡ n
      → route_all turn ps l ≡ ok l'
      → InOrder n turn ps l l'
  unfolding route_all route selected answers
  in_order n turn [] l size h = (
    ground arith,
    λ port lt. ground (arith, append-nil (queue l port)),
    ground (arith, append-nil l.upstream),
  )
  in_order n turn (p ∷ ps) l {l'} size h = elim (Result-cases (decide turn n p)) [
    | inr (x, e) ↦ absurd (ground arith)
    | inl (d, e) ↦
        let u = put p d l in
        let next : route_all (turn + 1) ps u ≡ ok l' = ground (arith, size, e) in
        let (same, queues, up) = in_order n (turn + 1) ps u (put-length p d l ∙ size) next in
        (
          same,
          λ port lt.
              queues port lt
              ∙ ap (λ q. q ++ selected decide n (turn + 1) port ps)
                  (put_lem p d l port (omega arith))
              ∙ append_assoc (queue l port) (for_port p d port)
                  (selected decide n (turn + 1) port ps)
              ∙ ap (λ q. queue l port ++ q) (sym (selected_lem n turn port p ps d e)),
          up
              ∙ ap (λ q. q ++ answers decide n (turn + 1) ps) (put-upstream p d l)
              ∙ append_assoc l.upstream (for_host d) (answers decide n (turn + 1) ps)
              ∙ ap (λ q. l.upstream ++ q) (sym (answers_lem n turn p ps d e)),
        )
  ]

  -- Packets that a router has taken without an exception, in their order: each queue of a vPPB has what it
  -- had, and then the packets that the router decided to send there, in that order; the host's queue has
  -- what it had, and then the answers, in the order of the packets that they answer.
  pub route_all-in_order :
      (turn : ℕ) (ps : List Down) (l l' : Links Down Up)
      → route_all turn ps l ≡ ok l'
      → (length l'.downstream ≡ length l.downstream)
        × ((port : ℕ)
            → port < length l.downstream
            → queue l' port ≡ queue l port ++ selected decide (length l.downstream) turn port ps)
        × (l'.upstream ≡ l.upstream ++ answers decide (length l.downstream) turn ps)
  route_all-in_order turn ps l l' h = in_order (length l.downstream) turn ps l refl h

-- ===== src/Cache/Fifo.antt =====
-- opencxl/cxl/transport/cache_fifo.py, and how the cache controller waits on its two fifos. What
-- the agents will answer is a list of responses for each fifo; what was asked of them is recorded.
-- An `await` on a fifo that never receives a response ends in `blocked`.
use opencxl_core.Prelude.{
  ℕ, ◌≡◌, refl, inl, inr, arith, List, [], ◌∷◌, ◌++◌, Bool, true, false, Result, ok, err, Error,
  blocked, Result-cases,
}

pub data CacheRequestType : Type 0 where
  read write snp_data snp_inv snp_cur write_back uncached_write uncached_read : CacheRequestType

pub record CacheRequest : Type 0 where
  pub type : CacheRequestType
  pub addr : ℕ
  pub size : ℕ
  pub value : ℕ

pub data CacheResponseStatus : Type 0 where
  ok_status failed rsp_v rsp_s rsp_i rsp_miss : CacheResponseStatus

pub record CacheResponse : Type 0 where
  pub status : CacheResponseStatus
  pub value : ℕ

-- The fifo pair to the coherency agent, and the one to the coherency bridge.
pub data Target : Type 0 where
  coh_agent coh_bridge : Target

pub record Fifos : Type 0 where
  pub agent_responses : List CacheResponse
  pub bridge_responses : List CacheResponse
  pub sent : List (Target × CacheRequest)

abbrev pub M : Type 0 → Type 0
M A = Fifos → Result (A × Fifos)

abbrev pub pure : {A : Type 0} → A → M A
pure a w = ok (a, w)

abbrev pub raise : {A : Type 0} → Error → M A
raise e w = err e

infixl 5 ◌>>=◌ ◌>>◌
abbrev pub ◌>>=◌ : {A B : Type 0} → M A → (A → M B) → M B
◌>>=◌ m f w = elim (m w) [ err e ↦ err e | ok (a, w') ↦ f a w' ]

abbrev pub ◌>>◌ : {B : Type 0} (first : M (Unit {0})) (next : M B) → M B
first >> next = first >>= λ _. next

abbrev pub guard : Bool → Error → M (Unit {0})
guard true e = pure tt
guard false e = raise e

-- What a fifo has received, taken from its front.
unfoldable pub take_response : List CacheResponse → Result (CacheResponse × List CacheResponse)
take_response [] = err blocked
take_response (r ∷ rs) = ok (r, rs)

abbrev record_sent : Fifos → Target → CacheRequest → Fifos
record_sent w t packet = record w { sent = w.sent ++ (t, packet) ∷ [] }

-- `await fifo.request.put(packet)`, then `await fifo.response.get()`.
unfoldable pub exchange : Target → CacheRequest → M CacheResponse
unfolding take_response
exchange coh_agent packet w = elim (take_response w.agent_responses) [
  | err e ↦ err e
  | ok (r, rest) ↦ ok (r, record (record_sent w coh_agent packet) { agent_responses = rest })
]
exchange coh_bridge packet w = elim (take_response w.bridge_responses) [
  | err e ↦ err e
  | ok (r, rest) ↦ ok (r, record (record_sent w coh_bridge packet) { bridge_responses = rest })
]

-- A computation that returned has returned from its first part.
pub >>=-eq-ok :
    {A B : Type 0} (m : M A) (f : A → M B) (w : Fifos) {r : B × Fifos}
    → (m >>= f) w ≡ ok r
    → (a : A) × (w' : Fifos) × (m w ≡ ok (a, w')) × (f a w' ≡ ok r)
>>=-eq-ok m f w h = elim (Result-cases (m w)) [
  | inl (p, e) ↦ (p.0, p.1, e, ground arith)
  | inr (x, e) ↦ absurd (ground arith)
]

pub guard-eq-ok :
    (b : Bool) (e : Error) (w : Fifos) {r : Unit {0} × Fifos}
    → guard b e w ≡ ok r
    → (b ≡ true) × (r.1 ≡ w)
guard-eq-ok true e w h = (refl, ground arith)
guard-eq-ok false e w h = absurd (ground arith)

-- An exchange records its request behind all that was sent before.
pub exchange-sent :
    (t : Target) (packet : CacheRequest) (w : Fifos) {r : CacheResponse × Fifos}
    → exchange t packet w ≡ ok r
    → r.1.sent ≡ w.sent ++ (t, packet) ∷ []
unfolding exchange
exchange-sent coh_agent packet w h = ground arith
exchange-sent coh_bridge packet w h = ground arith

-- ===== src/Binder/Laws.antt =====
-- opencxl/cxl/component/virtual_switch/port_binder.py: what binding and unbinding do.
use opencxl_core.Prelude.{
  ℕ, zero, suc, ◌<◌, ◌≡◌, refl, ap, ◌∙◌, arith, false, List, [], ◌∷◌, none, some, length, get_elem?,
  get_elem?-set_self, Result, ok, err, exception, Error,
}
use opencxl_core.Binder.{
  stopped, running, bound, unbound, is_bound, is_unbound, BindSlot, PortBinder, start_dummy, stop,
  stop_processor, bind_slot, unbind_slot, on_slot, bind_vppb, unbind_vppb, get_bind_status,
  get_bound_port_id, put_slot,
}

get_elem?-in_range {ℓ} :
    {A : Type ℓ} (xs : List A) (i : ℕ) {x : A} → get_elem? xs i ≡ some x → i < length xs
get_elem?-in_range [] i h = absurd (ground arith)
get_elem?-in_range (x ∷ xs) zero h = omega arith
get_elem?-in_range (x ∷ xs) (suc i) h = omega (arith, get_elem?-in_range xs i h)

-- The state after `change` succeeded on a slot.
on_slot-ok :
    (change : BindSlot → Result BindSlot) (b : PortBinder) (index : ℕ) {slot slot' : BindSlot}
    → get_elem? b.slots index ≡ some slot
    → change slot ≡ ok slot'
    → on_slot change b index ≡ (put_slot b index slot', ok tt)
unfolding on_slot
on_slot-ok change b index at_index changed = ground arith

on_slot-err :
    (change : BindSlot → Result BindSlot) (b : PortBinder) (index : ℕ) {slot : BindSlot} {e : Error}
    → get_elem? b.slots index ≡ some slot
    → change slot ≡ err e
    → on_slot change b index ≡ (b, err e)
unfolding on_slot
on_slot-err change b index at_index changed = ground arith

start_dummy-slots : (b : PortBinder) → (start_dummy b).slots ≡ b.slots
unfolding start_dummy
start_dummy-slots b = ground arith

bind_slot-new :
    (dsp : ℕ) (slot : BindSlot)
    → is_bound slot.status ≡ false
    → slot.processor ≡ none
    → bind_slot dsp slot ≡ ok (record { status = bound; processor = some running; dsp = some dsp })
unfolding bind_slot stop_processor
bind_slot-new dsp slot free idle = rw (free, idle) refl

unbind_slot-running :
    (slot : BindSlot)
    → is_unbound slot.status ≡ false
    → slot.processor ≡ some running
    → unbind_slot slot ≡ ok (record slot { processor = some stopped; status = unbound })
unfolding unbind_slot stop_processor stop
unbind_slot-running slot bound' runs = rw (bound', runs) refl

bind_slot-stopped :
    (dsp : ℕ) (slot : BindSlot)
    → is_bound slot.status ≡ false
    → slot.processor ≡ some stopped
    → bind_slot dsp slot ≡ err exception
unfolding bind_slot stop_processor stop
bind_slot-stopped dsp slot free ended = rw (free, ended) refl

-- A slot that was never bound is bound by `bind_vppb`, and freed by `unbind_vppb`. To bind it again
-- raises and leaves it free: the processor of the first binding is still in the slot, and to stop
-- it a second time raises.
pub bind_vppb-rebind :
    (b : PortBinder) (index dsp dsp' : ℕ) (slot : BindSlot)
    → get_elem? b.slots index ≡ some slot
    → is_bound slot.status ≡ false
    → slot.processor ≡ none
    → (get_bound_port_id (bind_vppb b dsp index).0 index ≡ ok dsp)
      × (get_bind_status (unbind_vppb (bind_vppb b dsp index).0 index).0 index ≡ ok unbound)
      × ((bind_vppb (unbind_vppb (bind_vppb b dsp index).0 index).0 dsp' index).1 ≡ err exception)
unfolding bind_vppb unbind_vppb get_bound_port_id get_bind_status
bind_vppb-rebind b index dsp dsp' slot there free idle =
    let made : BindSlot = record { status = bound; processor = some running; dsp = some dsp } in
    let left : BindSlot = record { status = unbound; processor = some stopped; dsp = some dsp } in
    let b₁ = put_slot (start_dummy b) index made in
    let b₂ = put_slot (start_dummy b₁) index left in
    let at : get_elem? (start_dummy b).slots index ≡ some slot =
      ap (λ l. get_elem? l index) (start_dummy-slots b) ∙ there in
    let bound_now =
      on_slot-ok (bind_slot dsp) (start_dummy b) index at (bind_slot-new dsp slot free idle) in
    let at₁ =
      get_elem?-set_self (start_dummy b).slots index made
        (get_elem?-in_range (start_dummy b).slots index at) in
    let at₁' : get_elem? (start_dummy b₁).slots index ≡ some made =
      ap (λ l. get_elem? l index) (start_dummy-slots b₁) ∙ at₁ in
    let freed =
      on_slot-ok unbind_slot (start_dummy b₁) index at₁' (unbind_slot-running made refl refl) in
    let at₂ =
      get_elem?-set_self (start_dummy b₁).slots index left
        (get_elem?-in_range (start_dummy b₁).slots index at₁') in
    let at₂' : get_elem? (start_dummy b₂).slots index ≡ some left =
      ap (λ l. get_elem? l index) (start_dummy-slots b₂) ∙ at₂ in
    let refused =
      on_slot-err (bind_slot dsp') (start_dummy b₂) index at₂'
        (bind_slot-stopped dsp' left refl refl) in
    (
      rw bound_now (rw (get_bound_port_id, at₁) refl),
      rw (bound_now, freed) (rw (get_bind_status, at₂) refl),
      rw (bound_now, freed, refused) refl,
    )

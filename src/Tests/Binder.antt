-- ===== src/Tests/Binder.antt =====
-- opencxl/cxl/component/virtual_switch/port_binder.py at a switch of two vPPBs.
use opencxl_core.Prelude.{◌≡◌, refl, none, ok, err, exception}
use opencxl_core.Binder.{
  init, unbound, BindSlot, new_slots, new_binder, start_dummy, stop_processor, bind_slot, on_slot,
  bind_vppb, unbind_vppb, get_bind_status, count_bound, get_bound_vppbs_count, get_bound_port_id,
}
use opencxl_core.Binder.Laws.{bind_vppb-rebind}

abbrev fresh : BindSlot
fresh = record { status = init; processor = none; dsp = none }

count_test : get_bound_vppbs_count (bind_vppb (new_binder 2) 3 1).0 ≡ 1
unfolding new_slots new_binder start_dummy stop_processor bind_slot on_slot bind_vppb count_bound
    get_bound_vppbs_count
count_test = refl

bind_vppb-rebind_example :
    (get_bound_port_id (bind_vppb (new_binder 2) 3 1).0 1 ≡ ok 3)
    × (get_bind_status (unbind_vppb (bind_vppb (new_binder 2) 3 1).0 1).0 1 ≡ ok unbound)
    × ((bind_vppb (unbind_vppb (bind_vppb (new_binder 2) 3 1).0 1).0 4 1).1 ≡ err exception)
unfolding new_binder new_slots
bind_vppb-rebind_example = bind_vppb-rebind (new_binder 2) 1 3 4 fresh refl refl refl

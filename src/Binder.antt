-- ===== src/Binder.antt =====
-- opencxl/cxl/component/virtual_switch/port_binder.py: `PortBinder`, which binds the ports of a
-- virtual switch to physical ports, and the life of the processors that it starts, from
-- opencxl/util/component.py (`RunnableComponent`). A method returns the new state beside its
-- result, so that a state that changed before an exception is kept. A processor that was started is
-- running when the next method is called: its first steps wait for nothing.
pub mod Laws
use opencxl_core.Prelude.{
  ℕ, suc, ◌+◌, Bool, true, false, List, [], ◌∷◌, Option, none, some, if◌then◌else◌, length,
  get_elem?, set, Result, ok, err, Error, exception, attribute_error,
}

pub data ComponentStatus : Type 0 where
  stopped starting running stopping : ComponentStatus

-- `RunnableComponent.run`, up to the point where it runs, and `stop`, to the point where it has
-- stopped: `stop` of a component that does not run raises.
unfoldable pub run : ComponentStatus → Result ComponentStatus
run stopped = ok running
run starting = err exception
run running = err exception
run stopping = err exception

unfoldable pub stop : ComponentStatus → Result ComponentStatus
stop running = ok stopped
stop stopped = err exception
stop starting = err exception
stop stopping = err exception

pub data BindStatus : Type 0 where
  init bound unbound : BindStatus

abbrev pub is_bound : BindStatus → Bool
is_bound bound = true
is_bound init = false
is_bound unbound = false

abbrev pub is_unbound : BindStatus → Bool
is_unbound unbound = true
is_unbound init = false
is_unbound bound = false

-- `processor` is the status of the slot's processor, if it has one, and `dsp` the port index of the
-- downstream port device.
pub record BindSlot : Type 0 where
  pub status : BindStatus
  pub processor : Option ComponentStatus
  pub dsp : Option ℕ

pub record PortBinder : Type 0 where
  pub slots : List BindSlot
  pub dummy : ComponentStatus
  pub dummy_initialized : Bool

unfoldable pub new_slots : ℕ → List BindSlot
new_slots ℕ.zero = []
new_slots (suc n) = record { status = init; processor = none; dsp = none } ∷ new_slots n

-- The constructor makes a slot for each vPPB, and the dummy processor.
unfoldable pub new_binder : ℕ → PortBinder
unfolding new_slots
new_binder vppbs = record { slots = new_slots vppbs; dummy = stopped; dummy_initialized = false }

-- The dummy processor is started once, by the first call of `bind_vppb` or `unbind_vppb`.
unfoldable pub start_dummy : PortBinder → PortBinder
start_dummy b =
    if b.dummy_initialized then b else record b { dummy = running; dummy_initialized = true }

-- `if bind_slot.processor is not None: await bind_slot.processor.stop()`
unfoldable pub stop_processor : BindSlot → Result BindSlot
unfolding stop
stop_processor slot = elim slot.processor [
  | none ↦ ok slot
  | some p ↦ elim (stop p) [ err e ↦ err e | ok p' ↦ ok (record slot { processor = some p' }) ]
]

abbrev put_slot : PortBinder → ℕ → BindSlot → PortBinder
put_slot b index slot = record b { slots = set b.slots index slot }

-- The part of `bind_vppb` on the slot. The processor is a new one, started at once.
unfoldable pub bind_slot : ℕ → BindSlot → Result BindSlot
unfolding stop_processor
bind_slot dsp slot = if is_bound slot.status then err exception else elim (stop_processor slot) [
  | err e ↦ err e
  | ok _ ↦ ok (record { status = bound; processor = some running; dsp = some dsp })
]

unfoldable pub unbind_slot : BindSlot → Result BindSlot
unfolding stop_processor
unbind_slot slot = if is_unbound slot.status then err exception else elim (stop_processor slot) [
  | err e ↦ err e
  | ok slot' ↦ ok (record slot' { status = unbound })
]

-- A change of one slot, behind the check of the index.
unfoldable pub on_slot :
    (BindSlot → Result BindSlot) → PortBinder → ℕ → PortBinder × Result (Unit {0})
on_slot change b index = elim (get_elem? b.slots index) [
  | none ↦ (b, err exception)
  | some slot ↦ elim (change slot) [
    | err e ↦ (b, err e)
    | ok slot' ↦ (put_slot b index slot', ok tt)
  ]
]

unfoldable pub bind_vppb : PortBinder → ℕ → ℕ → PortBinder × Result (Unit {0})
unfolding start_dummy on_slot
bind_vppb b dsp vppb_index = on_slot (bind_slot dsp) (start_dummy b) vppb_index

unfoldable pub unbind_vppb : PortBinder → ℕ → PortBinder × Result (Unit {0})
unfolding start_dummy on_slot
unbind_vppb b vppb_index = on_slot unbind_slot (start_dummy b) vppb_index

unfoldable pub get_bind_status : PortBinder → ℕ → Result BindStatus
get_bind_status b vppb_index = elim (get_elem? b.slots vppb_index) [
  | none ↦ err exception
  | some slot ↦ ok slot.status
]

unfoldable pub count_bound : List BindSlot → ℕ
count_bound [] = 0
count_bound (slot ∷ slots) =
    let rest = count_bound slots in if is_bound slot.status then rest + 1 else rest

unfoldable pub get_bound_vppbs_count : PortBinder → ℕ
unfolding count_bound
get_bound_vppbs_count b = count_bound b.slots

-- `self._bind_slots[vppb_index].dsp.get_port_index()`, where `dsp` may be `None`.
unfoldable pub get_bound_port_id : PortBinder → ℕ → Result ℕ
get_bound_port_id b vppb_index = elim (get_elem? b.slots vppb_index) [
  | none ↦ err exception
  | some slot ↦
      if is_bound slot.status
      then elim slot.dsp [ none ↦ err attribute_error | some port ↦ ok port ]
      else err exception
]

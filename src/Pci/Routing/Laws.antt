-- ===== src/Pci/Routing/Laws.antt =====
-- opencxl/pci/component/routing_table.py: where requests go.
use native.Mathlib.Decide.{dec_lt}
use opencxl_core.Prelude.{
  ℕ, zero, suc, ◌+◌, ◌≤◌, ◌<◌, ◌≡◌, refl, sym, ap, subst, set, Option-cases, ◌∙◌, ◌↔◌, inl, inr,
  arith, true, false, List, [], ◌∷◌, none, some, if◌then◌else◌, ltb, ◌==◌, ◌&&◌, length, get_elem?,
  replicate, ok, Bool-cases,
}
use opencxl_core.Pci.Bdf.{extract_device_from_bdf, extract_bus_from_bdf}
use opencxl_core.Pci.Routing.{
  ConfigSpaceEntry, PciRoutingTable, new_mmio_entry, new_table, count_active, covers_bus, bus_port,
  is_router_bus, get_config_space_target_port, deactivate_vppb, any_bar, addr_port,
  get_mmio_target_port,
}

-- The row of a port covers the bus: it is active, and the bus is in its range.
abbrev pub Covers : List ConfigSpaceEntry → ℕ → ℕ → Type 0
Covers es port bus =
    (e : ConfigSpaceEntry) × (get_elem? es port ≡ some e) × (covers_bus e bus ≡ true)

bus_port-some :
    (es : List ConfigSpaceEntry) (start bus port : ℕ)
    → bus_port es start bus ≡ some port
    → (k : ℕ) × (port ≡ start + k) × Covers es k bus × ((j : ℕ) → j < k → ¬ Covers es j bus)
unfolding bus_port
bus_port-some [] start bus port h = absurd (ground arith)
bus_port-some (e ∷ es) start bus port h = elim (Bool-cases (covers_bus e bus)) [
  | inl here ↦ (0, ground arith, (e, refl, here), λ j p. absurd (omega arith))
  | inr later ↦
      let (k, at, found, first) = bus_port-some es (start + 1) bus port (ground arith) in
      (suc k, omega arith, found, not_before e es bus k later first)
]
  where
    not_before :
        (e : ConfigSpaceEntry) (es : List ConfigSpaceEntry) (bus k : ℕ)
        → covers_bus e bus ≡ false
        → ((j : ℕ) → j < k → ¬ Covers es j bus)
        → (j : ℕ) → j < suc k
        → ¬ Covers (e ∷ es) j bus
    not_before e es bus k no_cover first zero p (e', same, c) = ground arith
    not_before e es bus k no_cover first (suc j) p covers = first j (omega arith) covers

bus_port-none :
    (es : List ConfigSpaceEntry) (start bus port : ℕ)
    → bus_port es start bus ≡ none
    → ¬ Covers es port bus
unfolding bus_port
bus_port-none [] start bus port h (e, there, c) = ground arith
bus_port-none (e ∷ es) start bus zero h (e', there, c) = ground arith
bus_port-none (e ∷ es) start bus (suc port) h covers =
    bus_port-none es (start + 1) bus port (ground arith) covers

-- The first of the ports that cover the bus.
abbrev pub FirstCovers : List ConfigSpaceEntry → ℕ → ℕ → Type 0
FirstCovers es port bus = Covers es port bus × ((j : ℕ) → j < port → ¬ Covers es j bus)

FirstCovers-unique :
    (es : List ConfigSpaceEntry) (bus p q : ℕ) → FirstCovers es p bus → FirstCovers es q bus → p ≡ q
FirstCovers-unique es bus p q (c, first) (c', first') = elim (dec_lt p q) [
  | yes below ↦ absurd (first' p below c)
  | no h ↦ elim (dec_lt q p) [ yes above ↦ absurd (first q above c') | no h' ↦ omega arith ]
]

-- A configuration request for a bus that is not the router's goes to a port exactly where that
-- port is the first active one whose range of buses has the bus.
pub get_config_space_target_port-remote :
    (t : PciRoutingTable) (id port : ℕ)
    → is_router_bus t (extract_bus_from_bdf id) ≡ false
    → (get_config_space_target_port t id ≡ some port)
      ↔ FirstCovers t.config_space_table port (extract_bus_from_bdf id)
unfolding get_config_space_target_port
get_config_space_target_port-remote t id port remote =
    let es = t.config_space_table in
    let bus = extract_bus_from_bdf id in
    let from_some : (p : ℕ) → bus_port es 0 bus ≡ some p → FirstCovers es p bus = λ p h.
      let (k, at, found, first) = bus_port-some es 0 bus p h in
      subst (λ q. FirstCovers es q bus) (omega arith) (found, first) in
    let searched : get_config_space_target_port t id ≡ bus_port es 0 bus = rw remote refl in
    (
      λ h. from_some port (sym searched ∙ h),
      λ first. elim (Option-cases (bus_port es 0 bus)) [
        | inl none' ↦ absurd (bus_port-none es 0 bus port none' first.0)
        | inr (p, h) ↦
            searched ∙ h ∙ ap some (FirstCovers-unique es bus p port (from_some p h) first)
      ],
    )

count_active-le : (es : List ConfigSpaceEntry) → count_active es ≤ length es
unfolding count_active
count_active-le [] = omega arith
count_active-le (e ∷ es) = ground (arith, count_active-le es)

count_active-set :
    (es : List ConfigSpaceEntry) (port : ℕ) (e : ConfigSpaceEntry)
    → count_active es ≡ length es
    → get_elem? es port ≡ some e
    → count_active (set es port (record e { active = false })) + 1 ≡ length es
unfolding count_active
count_active-set [] port e all h = absurd (ground arith)
count_active-set (x ∷ es) zero e all h = ground (arith, count_active-le es)
count_active-set (x ∷ es) (suc port) e all h =
    ground (arith, count_active-le es, count_active-set es port e)

-- Where all ports are active and one is deactivated, a request on the router's own bus is still
-- answered by device number: every device but the last has its port, the deactivated one too, and
-- the last device has none, whichever port was deactivated.
pub deactivate_vppb-local :
    (t : PciRoutingTable) (vppb_number id : ℕ) {t' : PciRoutingTable}
    → count_active t.config_space_table ≡ length t.config_space_table
    → is_router_bus t (extract_bus_from_bdf id) ≡ true
    → deactivate_vppb t vppb_number ≡ ok t'
    → get_config_space_target_port t' id ≡ (
        if ltb (extract_device_from_bdf id + 1) (length t.config_space_table)
        then some (extract_device_from_bdf id)
        else none)
unfolding deactivate_vppb get_config_space_target_port
deactivate_vppb-local t vppb_number id {t'} all here h =
    elim (Option-cases (get_elem? t.config_space_table vppb_number)) [
      | inl missing ↦ absurd (ground arith)
      | inr (e, found) ↦
          ground (arith, count_active-set t.config_space_table vppb_number e all found)
    ]

addr_port-new :
    (n start addr : ℕ)
    → addr_port (replicate n new_mmio_entry) start addr
      ≡ (if addr == 0 && ltb 0 n then some start else none)
unfolding addr_port any_bar
addr_port-new zero start addr = ground arith
addr_port-new (suc n) start addr = ground (arith, addr_port-new n (start + 1) addr)

-- A new table, in which no port has been given a range, still sends address 0 to port 0, since an
-- unset range holds its own bounds. It sends no other address anywhere.
pub get_mmio_target_port-new_table :
    (n addr : ℕ)
    → get_mmio_target_port (new_table n) addr ≡ (if addr == 0 && ltb 0 n then some 0 else none)
unfolding get_mmio_target_port new_table
get_mmio_target_port-new_table n addr = addr_port-new n 0 addr

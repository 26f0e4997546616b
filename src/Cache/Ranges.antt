-- ===== src/Cache/Ranges.antt =====
-- opencxl/cxl/component/cache_controller.py: the memory ranges of a cache controller. Log messages
-- are left out.
use opencxl_core.Prelude.{
  ℕ, ◌+◌, Bool, true, false, List, [], ◌∷◌, ◌++◌, Option, none, some, if◌then◌else◌, ltb, leb, ◌==◌,
  ◌&&◌,
}
use mathlib.Core.Logic.{ite}

pub data MemAddrType : Type 0 where
  dram cfg mmio cxl_cached cxl_cached_bi cxl_uncached oob : MemAddrType

pub MemAddrType-discrete : Discrete MemAddrType
MemAddrType-discrete = hlevel

pub record MemoryRange : Type 0 where
  pub base_addr : ℕ
  pub size : ℕ
  pub addr_type : MemAddrType

-- The comparison that `@dataclass` gives: all fields equal.
unfoldable pub range_eq : MemoryRange → MemoryRange → Bool
range_eq r r' =
    r.base_addr == r'.base_addr
    && r.size == r'.size
    && ite (MemAddrType-discrete r.addr_type r'.addr_type) true false

unfoldable pub add_mem_range : List MemoryRange → ℕ → ℕ → MemAddrType → List MemoryRange
add_mem_range ranges addr size addr_type =
    ranges ++ record { base_addr = addr; size = size; addr_type = addr_type } ∷ []

-- `list.remove`: the first equal item goes. Where there is none, the source logs an error.
unfoldable pub remove_range : List MemoryRange → MemoryRange → List MemoryRange
remove_range [] r = []
remove_range (r' ∷ rs) r = if range_eq r' r then rs else r' ∷ remove_range rs r

unfoldable pub remove_mem_range : List MemoryRange → ℕ → ℕ → MemAddrType → List MemoryRange
remove_mem_range ranges base_addr size addr_type =
    remove_range ranges (record { base_addr = base_addr; size = size; addr_type = addr_type })

unfoldable pub holds : MemoryRange → ℕ → Bool
holds r addr = leb r.base_addr addr && ltb addr (r.base_addr + r.size)

-- `_get_mem_range`.
unfoldable pub get_mem_range : List MemoryRange → ℕ → Option MemoryRange
get_mem_range [] addr = none
get_mem_range (r ∷ rs) addr = if holds r addr then some r else get_mem_range rs addr

unfoldable pub get_mem_addr_type : List MemoryRange → ℕ → MemAddrType
get_mem_addr_type ranges addr = elim (get_mem_range ranges addr) [
  | none ↦ oob
  | some r ↦ r.addr_type
]

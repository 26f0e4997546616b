-- ===== src/Lib.antt =====
-- A model of the core logic of opencxl-core, an emulator of Compute Express Link devices, switches
-- and hosts, and theorems about it.
--
-- A host address reaches a device in steps that the parts of the model follow. The switch finds a
-- port for a request: by the bus, device and function number (opencxl/util/pci.py, Pci/Bdf)
-- through the routing table (opencxl/pci/component/routing_table.py, Pci/Routing), or, for memory,
-- through its HDM decoders. The device's HDM decoders then translate the host address to the
-- device's own (opencxl/cxl/component/hdm_decoder.py: Hdm/Decoder has the decoders, Hdm/Manager
-- the managers that commit and search them). A host or a device that caches the memory does so
-- with the cache controller (opencxl/cxl/component/cache_controller.py), under Cache: Cache/Ranges
-- has the address ranges, Cache/Fifo the packets and fifos of opencxl/cxl/transport/cache_fifo.py,
-- Cache/Blocks the blocks of a set, Cache/Controller the loads and stores, Cache/Agent the
-- requests that come in. The ports of a virtual switch are bound and unbound by
-- opencxl/cxl/component/virtual_switch/port_binder.py (Binder), which starts and stops components
-- (opencxl/util/component.py).
--
-- The home agent of a host (opencxl/cxl/component/root_complex/home_agent.py, HomeAgent) turns the
-- requests of the host's cache into CXL.mem packets (opencxl/cxl/transport/transaction.py, CxlMem)
-- and the snoops of a device into requests of the cache. HomeAgent has its state and its handlers,
-- HomeAgent/Loop the turns of its main loop and the steps of the agent among its neighbours, in
-- any order. The device at the other end is opencxl/cxl/component/cxl_mem_dcoh.py, MemDcoh: its
-- snoop filter and its memory, and under MemDcoh/Handlers what it does with each packet;
-- MemDcoh/Exchange puts both ends together. HomeAgent/Chunks has the reads and writes in chunks of
-- 64 bytes. The packets of CXL.io from the same file are under CxlIo: Mreq the memory requests,
-- Cfg the configuration requests, Cpl the completions.
--
-- The coherency bridge of a host (opencxl/cxl/component/root_complex/cache_coherency_bridge.py,
-- CacheBridge, with the packets of CxlCache) keeps in its snoop filter which device has which
-- line, and serves the devices that ask for one: CacheBridge has its handlers, CacheBridge/Loop
-- its main loop. The device at the other end is opencxl/cxl/component/cxl_cache_dcoh.py,
-- CacheDcoh; CacheBridge/Forward puts both ends together. What the cache of a host or a device
-- answers to a snoop is what waits in a fifo, since the cache controller does not run the
-- coroutine that would put it there.
--
-- The routers of a virtual switch (opencxl/cxl/component/virtual_switch/routers.py, Router) send
-- each packet of a host to a port, or answer it, and each packet of a device to the host. The
-- packet reader (opencxl/cxl/component/packet_reader.py, PacketReader) reads a packet from a
-- stream and tells which kind it is; the stream and the decoding of headers are parameters. The
-- memory hub (opencxl/cxl/component/cxl_memory_hub.py, MemoryHub) sends each load and store of a
-- host to the cache controller or to the root complex, which is any type that fills the interface
-- `RootComplexOps`.
--
-- Beside these stand the executor of the commands of the CCI
-- (opencxl/cxl/component/cci_executor.py, CciExecutor: its commands are functions,
-- CciExecutor/Background has the steps of a run), the mailbox by which software asks a device for
-- its capabilities (opencxl/pci/component/doe_mailbox.py, Doe), the arrays of bytes that it and
-- all registers are made of (opencxl/util/unaligned_bit_structure.py, Bytes: the class
-- ShareableByteArray, and BitStructure: the layout of fields, with those of the packet headers),
-- and the functions on numbers of opencxl/util/number.py (Number). The MMIO manager
-- (opencxl/pci/component/mmio_manager.py, Mmio) answers memory requests from the registers of a
-- device, which are any type that fills the interface `RegisterOps`, as the registers with masks
-- of opencxl/util/unaligned_bit_structure.py do (Mmio/Register).
--
-- A definition has the name of the function that it models, without a leading underscore; where a
-- function is split, the parts say what they do. A method takes the state of its object and
-- returns the new state beside its result. An exception is an `err` with its kind
-- (Prelude/Outcome). An `await` on a fifo takes the next of the responses that the fifo will give,
-- and what is sent is recorded, so that a theorem on a load or a store holds for all answers of
-- the other side.
--
-- Numbers are natural numbers without a bound, as Python's are. Where the source computes with a
-- negative number, as with the complement of a mask, the definition says what comes of it. The
-- offset of an address in a decoder's range is bounded where a theorem says so, since the source
-- takes its bits up to bit 51. Loops run over a list or a range, or, in CxlIo/Cfg, over the four
-- bits of a field, so that none needs fuel.
--
-- The other modules under Hdm, Cache, Pci, Binder, Doe, Mmio, Bytes, Number, HomeAgent,
-- CacheBridge, CacheDcoh, Router, CciExecutor, MemDcoh, BitStructure, MemoryHub, PacketReader and
-- CxlIo have the theorems and their lemmas, Prelude the helpers, Tests the runs at concrete
-- inputs. Left out are log messages, the wiring of queues and sockets, the layouts of registers,
-- and the composition of devices and drivers. Not modelled either: the accessors that bit
-- structures build by reflection, the drivers that scan the buses, and the mailbox of the CCI with
-- what its commands do.
pub mod Prelude
pub mod Number
pub mod Bytes
pub mod Hdm
pub mod Cache
pub mod Pci
pub mod Doe
pub mod Mmio
pub mod Binder
pub mod CxlMem
pub mod CxlCache
pub mod CacheBridge
pub mod CacheDcoh
pub mod Router
pub mod CciExecutor
pub mod HomeAgent
pub mod CxlIo
pub mod MemDcoh
pub mod BitStructure
pub mod MemoryHub
pub mod PacketReader
mod Tests

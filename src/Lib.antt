-- ===== src/Lib.antt =====
-- A model of ignition, a virtual machine monitor for aarch64 guests (README.md), as an antt library,
-- with theorems about its core: guest memory, dirty tracking, snapshots, virtqueues and devices.
--
-- The parts and the files that model them:
--   Base              numbers, lists, bits and little-endian bytes that the other modules share
--   Dirty             crates/vmm/src/dirty.rs, the bitmap of guest pages written since a snapshot:
--                     `DirtyTracker` with `new`, `mark`, `pages`, `drain` and the sink's `mark_dirty`
--   Ram               crates/devices/src/virtio/guest_ram.rs, the bounds-checked view of guest RAM;
--                     a successful write reports its range to the tracker
--   Snapshot          crates/vmm/src/snapshot.rs (diff layers) and crates/vmm/src/reset.rs
--                     (roll-back of RAM). The directories and the calls on them (`Names`, `Files`),
--                     manifests and the writer (`Writer`), chains of layers (`Chain`), and the
--                     rebuilding of RAM from a chain (`Restore`, with spike/src/bin/boot.rs); what a
--                     capture leaves alone (`Frame`), leaves behind (`Success`) and needs
--                     (`Works`, `Accepted`), and captures that replace a layer (`Overwrite`)
--   Vcpus             crates/vmm/src/vstate/vcpu_manager.rs, the run loops of the vCPU threads and
--                     the rendezvous for snapshots, checkpoints and resets, as steps in any order;
--                     its phases (`Rendezvous` and the files below it)
--   Fuzz              crates/vmm/src/fuzz/controller.rs: inputs, coverage and the reset between
--                     runs; the control registers (`Device`, crates/devices/src/fuzz)
--   Queue             crates/devices/src/virtio/queue.rs, the device side of a split virtqueue in
--                     guest RAM, and the loop over it that the devices share (`Drain`)
--   Bus               crates/devices/src/bus.rs and device.rs: the MMIO bus, its ranges
--                     (`Register`) and the dispatch of guest accesses (`Routing`)
--   Manager           crates/vmm/src/device_manager.rs: windows and SPIs (`Alloc`), devices placed
--                     on the bus (`Place`), their saved states (`Frozen`)
--   Mmio              crates/devices/src/virtio/mmio.rs, the virtio-mmio transport: state and
--                     queues (`Mmio`), registers and notifications (`Regs`), snapshots (`State`);
--                     the interrupt line (`Line`, `Calls`), set-up (`Setup`), reset (`Quiet`);
--                     the hosted device is a record of functions, the trait `VirtioDevice`
--   Entropy           crates/devices/src/virtio/rng.rs, buffers filled with host entropy
--   Rtc               crates/devices/src/rtc.rs and boot_timer.rs, the clock and the boot timer
--   Blk               crates/devices/src/virtio/blk.rs, one request of the block device; the file
--                     is a record of calls
--   Balloon           crates/devices/src/virtio/balloon.rs, pages given back to the host
--   Net               crates/devices/src/virtio/net.rs, frames out and in; the backend is a record
--                     of calls
--   Vsock             crates/devices/src/virtio/vsock/: the header (`Packet`, packet.rs), a stream
--                     and its credit (`Connection`, connection.rs), the table of streams (`Muxer`
--                     and `Service`, muxer.rs), the device (`Device`, mod.rs); sockets are a
--                     record of calls
-- A device writes guest RAM through `Ram`, which reports to `Dirty`; `Snapshot` saves and rolls back
-- the pages that `Dirty` lists, while a vCPU that leads a rendezvous (`Vcpus`) keeps the others
-- parked; `Fuzz` rolls them back after every run. The bus dispatches a guest access to a transport
-- (`Mmio`), which hands a queue (`Queue`) to its device (`Blk`, `Net`, `Vsock`, `Entropy`); the
-- manager places transports on the bus.
--
-- State is passed explicitly: an operation on `&mut self` returns the new value beside its result,
-- and code behind `&GuestRam` that writes memory returns the new RAM. `Option` and `Result` values
-- stay values. Integers are natural numbers with their wrap-around written out: sums of guest
-- addresses wrap at 2 ^ 64 as in a release build, where a debug build panics.
-- Loops over collections are recursions on lists; the `while` loops take fuel, and theorems below
-- show how much is enough: one round for each granule of the range plus two in `mark_dirty`,
-- 2 ^ 16 rounds for a queue whose device leaves the available index alone, and for a vsock stream
-- the bytes that wait, the interruptions of its socket and, when it is read, 2 ^ 32. A walk down a
-- chain of snapshots has one round for each directory and one more. The search for a free vsock port
-- has fuel without such a theorem, and so has the entropy device, whose buffers may lie on the
-- available index: what is shown of it holds after any number of rounds.
--
-- Not modelled: the hypervisor bindings (crates/hvf) and the handlers that call them, the bring-up
-- of further vCPU threads and the restore path of crates/vmm/src/vstate, the other virtio and
-- platform devices, the boot set-up (crates/arch), the API servers (crates/fc-api, crates/mcp,
-- crates/sandbox), the metrics of the fuzzer and the parser of vsock control lines. Files outside the
-- snapshots, sockets, JSON and the clock enter as parameters where an operation depends on them;
-- code that only formats messages is left out. Locks are not modelled: each operation runs whole,
-- and threads are interleaved between operations in `Vcpus` alone.
pub mod Base
pub mod Dirty
pub mod Ram
pub mod Snapshot
pub mod Queue
pub mod Bus
pub mod Manager
pub mod Mmio
pub mod Balloon
pub mod Blk
pub mod Net
pub mod Entropy
pub mod Rtc
pub mod Fuzz
pub mod Vcpus
pub mod Vsock

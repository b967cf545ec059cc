-- ===== src/Vsock.antt =====
-- crates/devices/src/virtio/vsock/: stream sockets between guest and host. `Packet` is the header on
-- the ring, `Connection` one stream with its credit, `Muxer` the table of streams, `Service` the
-- pass over it, `Device` the device over its queues; the other files are about these.
-- Numbers of the source's `Wrapping<u32>` wrap at 2 ^ 32 here too.
pub mod Packet
pub mod Connection
pub mod Flow
pub mod Credit
pub mod Muxer
pub mod Service
mod Pass
mod Table
pub mod Device
mod Receive
mod Tests

-- ===== src/SlotFs.antt =====
-- lib_slotfs: the slot filesystem, a fixed number of equal slots on a block device.
-- `State` has the data and the interface of the device, `Meta` the metadata blocks and the format,
-- `Open` opening and closing, `Io` the reads and writes; the other modules prove what these do.
pub mod State
pub mod Meta
pub mod Open
pub mod Io
pub mod Layout
pub mod Revision
pub mod Blocks
pub mod Positions
pub mod Loops
pub mod Faults
pub mod Metas
pub mod Stored
pub mod Reading
mod Tests

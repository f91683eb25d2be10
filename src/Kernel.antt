-- ===== src/Kernel.antt =====
-- src/kernel.rs: building and applying the diffs by which a buffer is replicated.
-- Memory is a list of bytes. The alignment of pointers, and the SIMD version of the scan, are not
-- modelled; a mapping that is shared with another program is read as it is at the time of the call.
pub mod Construct
pub mod Apply
mod Patch
mod Lines
mod Front
mod Scan
mod Run
mod Segment
mod RoundTrip
mod Guards
mod Tests

-- ===== src/Lib.antt =====
-- A verification library for Waypipe, which forwards Wayland programs over a network.
--
-- Two instances of Waypipe stand between a Wayland program and a compositor. Each reads the
-- messages of its socket, tracks the objects they name, and sends them over a channel; the
-- contents of shared buffers are replicated by diffs against a mirror that both instances hold.
-- The library models the parts of this that compute:
--
--   Wayland   src/wayland.rs   readers and writers of the parts of a Wayland message
--   Util      src/util.rs      headers of the channel's messages, and shared arithmetic
--   Kernel    src/kernel.rs    diffs: construct_diff and its scan (Kernel/Construct), and
--                              apply_diff, apply_diff_one, compute_diff_span (Kernel/Apply)
--   Damage    src/damage.rs    from rectangles to lists of damaged intervals, compute_damaged_segments
--                              (Damage/Rects), and validate_output and union_damage on such lists
--   Mirror    src/mirror.rs    the mirror and the ranges of it that are handed out
--   Reader    src/read.rs      the reader that cuts the channel's bytes into messages
--   Formats   src/util.rs, src/wayland_gen.rs   pixel formats and the layout of their planes
--   Tracking  src/tracking.rs  the part of a shared memory pool that a buffer occupies; the damage of
--                              a surface as damage of its buffer (Tracking/Transform) and the way back
--                              (Tracking/Inverse); and time stamps
--                              (Tracking/Clock, Tracking/Stamps)
--   Channel   src/mainloop.rs  the queue to the channel: write_to_channel, process_wayland_2, and the
--                              loop of loop_end_to_channel (Channel/Loop); read_from_channel and
--                              how process_channel takes messages (Channel/Delivers)
--   Split     src/mainloop.rs  split_damage, which shares damage out to the threads
--   Base                       shared names: tests, lists, slices, bytes, machine words, results
--
-- How they interact: damage is collected as lists of intervals (Damage; of a whole buffer,
-- Tracking with Formats) and shared out (Split), the threads take ranges of the mirror (Mirror),
-- construct the diffs of the intervals and write them back to the mirror (Kernel), and send them
-- under a header (Util); the other side reads them (Reader) and applies them (Kernel). The paths
-- above are from the repository's root. Functions keep their names; a loop of a function is a
-- definition of its own (`scan`, `apply_loop`, `union_loop`, `extract_loop`).
--
-- Conventions. A `usize` or `u32` is a number, and where the code's arithmetic can wrap in a
-- release build, the remainder is written out; an i32 of a Wayland request is a `ℤ` (Tracking).
-- Memory is a list of bytes; `&mut [u8]` is passed in and returned. A result is an `Outcome`:
-- `ok`, the code's `Err`, or a panic. The alignment of pointers and their addresses are not
-- modelled. Mutexes make each operation on a mirror one step; sequences of these steps and of
-- writes to the ranges that are handed out are the family `Reach` of Mirror/Exclusive. The
-- system calls `mmap` and `mremap` are parameters, assumed to do what is documented (MmapZeroed
-- and MremapKeeps of Mirror/Extend).
--
-- The specification of diffs is the family `Patch` of Kernel/Patch: a sequence of replaced
-- intervals, to which the scan (Kernel/Scan) and the loops that apply a diff (Kernel/Run) are
-- related. These loops run on fuel, a round more than the bytes of the diff: each round passes a
-- segment with its two control words, and the theorems on them have no hypothesis on fuel.
--
-- The specification of the reader is the family `Frames` of Reader/Frames: how the headers cut a
-- stream. The record IsCut of Reader/Stream relates a reader to the stream it has read. A source
-- of bytes is modelled by what `readv` meets: bytes, of which it takes what fits, or an error
-- number. `extract_loop` runs on one round more than the bytes that are held, and each round
-- passes four.
--
-- The loop of `process_group` runs on fuel, the number of rows of its rectangles, of which each
-- round takes one away; a binary heap is a list of which the greatest element is taken.
--
-- The queue to the channel is a TransferQueue; the channel is the list of the bytes it accepted.
-- What `writev` returns is an input of `write_to_channel`, and `end_loop` runs over the list of
-- what each return of `ppoll` reports, so it needs no fuel. `take_messages` runs on a round for
-- each message. `plan` is what is handed to `writev`, `account` what the queue is afterwards;
-- `offered` (Channel/Plan) is the bytes of the plan.
--
-- Not modelled: the AVX2 version of the scan, which the portable version specifies; the contents
-- of a shared mapping that another program changes meanwhile, so that a mapping is read as it is
-- at the time of the call; the threads and the poll loop, the protocol handlers, what is done
-- with a message of the channel, and the libraries for video, graphics and compression.
pub mod Base
pub mod Wayland
pub mod Util
pub mod Kernel
pub mod Damage
pub mod Mirror
pub mod Reader
pub mod Formats
pub mod Tracking
pub mod Channel
pub mod Split

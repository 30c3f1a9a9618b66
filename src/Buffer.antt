-- ===== src/Buffer.antt =====
-- BufferBase, the byte buffer of include/core/Buffer.h, plain or circular.
pub mod State
pub mod Positions
pub mod Block
pub mod Contents
pub mod Copies
pub mod Stores
pub mod Skips
pub mod Growth
pub mod Resize
pub mod Room
pub mod Write
pub mod Read
pub mod Values
pub mod Wire
pub mod RoundTrip
pub mod Decode
pub mod Measure
pub mod Queue
pub mod Ranges
pub mod Moves
pub mod Sharing
pub mod Overrun
pub mod Exchange
pub mod Construct

-- ===== src/Tests.antt =====
-- Runs of the modelled code at concrete inputs, and the theorems at inputs that meet their
-- hypotheses.
mod Heap
mod Fixtures
mod Buffers
mod BufferValues
mod BufferFaults
mod BitTricks
mod Waits
mod Arrays
mod Pipes
mod Dispatchers
mod BoundedQueues
mod Transactions
mod Fragments

-- ===== src/PcQueue.antt =====
-- src/sphsinglepcqueue.cpp: the ring between a single producer and a single consumer, with the
-- direct entry functions of src/sphdirectpcqueue.h.
pub mod Defs
pub mod Produce
pub mod Consume
pub mod Direct
pub mod Ring
pub mod Fifo
pub mod Refine
pub mod Operations
pub mod Places
mod Tests

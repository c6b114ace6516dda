-- ===== src/ShareMem/Protocol.antt =====
-- That one producer and one consumer of share_mem_queue.c see a bounded queue of values.
pub mod Ring
pub mod Producer
pub mod Consumer
pub mod Runs

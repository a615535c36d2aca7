-- ===== src/Qdmabuf.antt =====
-- modules/qdmabuf: buffers that are exported as DMA-BUF descriptors.
pub mod Pages
pub mod Ledger
pub mod Export
pub mod Refs
pub mod Ops
pub mod Attach
pub mod Cpu
pub mod Command
pub mod Device

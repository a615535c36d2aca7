-- ===== src/Qvio.antt =====
-- modules/qvio: the video device, its buffer queue and the user-job channel.
pub mod Format
pub mod Queue
pub mod Scatter
pub mod Streaming
pub mod UserJob
pub mod Video
pub mod Ioctl
pub mod Board
pub mod Pci
pub mod Platform

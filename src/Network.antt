-- ===== src/Network.antt =====
-- network/: the server that streams frames to one viewer.
pub mod Config
pub mod Delivery
pub mod FileDescriptor
pub mod Message
pub mod FrameQueue
pub mod ClientSession
pub mod WakePipe
pub mod ListenSocket
pub mod TcpServer

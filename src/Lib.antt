-- ===== src/Lib.antt =====
-- A model of the AEB node, a program that reads an RPLidar, looks for obstacles ahead, commands the
-- brake over CAN and streams the scans to a viewer. Paths are those of the repository.
--
-- How the parts interact: aeb_node/lidar/ acquires revolutions on a thread of its own and hands each
-- frame to a callback, aeb_node/app/Application.cpp's, which publishes it to aeb_node/network/, lets
-- aeb_node/perception/ look at it, and sends a brake command through aeb_node/canbus/. The server's I/O
-- thread encodes queued frames as aeb_node/common/Protocol.hpp lays down and sends them to one client.
--
-- Which file models what:
--   Prelude and its children: shared types, tests, lists, bits, integers, texts, chains of steps that may
--     fail.
--   Float32: the C++ type float, executable on bit patterns, for perception and the unit conversions;
--     Float32.Text has std::stof.
--   Types: aeb_node/common/Types.hpp (ScanPoint, ScanFrame).
--   Protocol: aeb_node/common/Protocol.hpp. Octets has putUint and getUint, Encoder the class
--     ProtocolEncoder, Decoder and Resync the class ProtocolDecoder; Receive is a user of the decoder;
--     Wire describes packets apart from the code, so that encoder and decoder are measured by it.
--   Network: Message (what the error strings tell), FrameQueue, ClientSession, WakePipe, ListenSocket,
--     FileDescriptor and TcpServer model the files of those names. FileDescriptor has the class on a
--     store; the others hold optional descriptors. Config has the configuration and the socket options,
--     WakePipe.Threads the atomic steps of signal and drain, and Delivery joins the server's pump to the
--     client's decoder. TcpServer.Reach has the steps of the threads.
--   Perception: aeb_node/perception/. Filters restates the filters apart from the loop, and Nearest says
--     which point of a sector is the nearest.
--   CanBus: aeb_node/canbus/.
--   Lidar: Device is aeb_node/lidar/RpLidarDevice.cpp, Acquisition aeb_node/lidar/Lidar.cpp, and BackOff its
--     wait between two attempts.
--   App: Options, CommandLine and Main are the files of those names in aeb_node/app/ (Main with the
--     constructor and destructor of Application); Callback is the callback in Application::startLidar,
--     and Lifecycle and Health are the rest of aeb_node/app/Application.cpp; SignalWaiter and its Mask
--     are aeb_node/app/SignalWaiter.cpp.
-- Some state lists what has happened, for the theorems to speak of it: the frames delivered, the CAN frames
-- on the wire, the octets sent, the lidars destroyed.
-- An operation carries the source's name in snake case (acceptClient is accept_client); state is a record
-- that is passed on; a failure is a status, a Bool or an Option, as in the source.
--
-- The environment is explicit: what the kernel answers to send, recv, read, write, accept and poll, what
-- the lidar's SDK returns, the clock and the reads of a stop flag are lists of answers or records of
-- outcomes that an operation takes. `none` of such an operation means that the answers end before the
-- call returns, or what its comment says (a read out of bounds, undefined behaviour, std::terminate).
--
-- Integers are natural numbers with the wrap of their C++ type written out. A float is its bit pattern.
-- Two loops run on fuel: FrameQueue's eviction loop on one more than the frames queued, each of which a
-- round takes off, and Protocol.Receive's on one more than the octets buffered, of which every frame
-- takes one at least. Float32 bounds the scale of a quotient by 448, which no quotient of two floats
-- exceeds.
--
-- A method that runs under one mutex is one step. A method that takes its lock twice, such as
-- TcpServer::publish, is one step too; Reach lets the steps of the threads interleave in any order.
--
-- Not modelled: the texts of log messages and of the components' errors (those of CommandLine are
-- modelled); memory exhaustion; the waiting itself of poll; the scripts.
pub mod Prelude
pub mod Float32
pub mod Types
pub mod Protocol
pub mod Network
pub mod Perception
pub mod CanBus
pub mod Lidar
pub mod App

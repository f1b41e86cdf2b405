-- ===== src/Protocol.antt =====
-- The wire protocol of src/core/CNProtocol.cpp and CNProtocol.hpp: the packet cipher, the
-- validation of packet sizes, and the sending and receiving ends of a client's socket.
pub mod Cipher
pub mod Packets
pub mod Socket
pub mod Receive
pub mod Outbound

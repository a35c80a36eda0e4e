-- ===== src/Net.antt =====
-- Messages between nodes (src/network/netMessage.cpp), how a peer receives them, and semaphores
-- (src/io/netPeers.cpp, src/cSemaphore.h).
pub mod Message
pub mod Peer
pub mod Address
pub mod SubNet
pub mod Service
pub mod Semaphore
mod Runs
mod AddressRuns
pub mod Manager
mod ManagerRuns

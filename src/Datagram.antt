-- ===== src/Datagram.antt =====
-- The request batches of MICA's datagrams and the server's side of them
-- (mica2/src/mica/datagram).
pub mod Memory
pub mod Defs
pub mod Reader
pub mod Frame
pub mod Requests
pub mod Batch
pub mod Walk
pub mod RoundTrip
pub mod Space
pub mod Parse
pub mod Respond
pub mod Answer
pub mod Ring
pub mod Window
pub mod Serve
pub mod Served
pub mod Reply
pub mod Exchange
pub mod Refuse
pub mod Server
mod Tests
mod ServeTests

-- ===== src/Tests.antt =====
-- The theorems at concrete inputs: a connection over a tape in memory, a socket and a handle over
-- one, and a server, with the values that the library's theorems take there.
pub mod Tape
pub mod Range
pub mod Ack
pub mod Line
pub mod Socket
pub mod Stacked
pub mod Wire
pub mod Ssl
pub mod Daemon
pub mod Reaper
pub mod Between
pub mod Pool
pub mod Blocking
pub mod Closing
pub mod Life
pub mod Attached
pub mod Ends
pub mod Handles

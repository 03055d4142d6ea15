-- ===== src/Conn.antt =====
-- The connection object of src/cw/conn.c: the packets it receives, and what it does with a message.
pub mod Packet
pub mod Delivery
pub mod Process
pub mod Seqnum
pub mod Queue

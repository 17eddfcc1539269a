-- ===== src/RawSocket.antt =====
-- The raw-socket programs: 21_raw_socket/icmp_check/main.c and 21_raw_socket/packet_capture/main.c.
pub mod Checksum
pub mod Ping
pub mod Capture
pub mod Payload
mod Examples

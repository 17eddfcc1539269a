-- ===== src/Addresses.antt =====
-- The programs on addresses: 24_IPv6/echo_clint_all/main.c, 24_IPv6/getaddrinfo_test/main.c and
-- 7_IP_Address/check_class/main.c.
pub mod Connect
pub mod FirstWorking
pub mod Listen
pub mod AllBound
pub mod Class
pub mod ClassRange
mod Examples

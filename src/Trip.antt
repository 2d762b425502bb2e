-- ===== src/Trip.antt =====
-- A request through the whole program: the proxy, a business server, and the proxy again.
pub mod Answer
pub mod Return
pub mod Jam

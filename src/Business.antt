-- ===== src/Business.antt =====
-- The business servers behind the proxy, http_server/.
pub mod Pool
pub mod Request
pub mod QueryText
pub mod Server
pub mod Server2
pub mod SameShop
pub mod Answers
pub mod Naming
pub mod FrontEnd
pub mod KeepAlive
pub mod Options
pub mod Main
pub mod Buying

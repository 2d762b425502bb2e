-- ===== src/Proxy.antt =====
-- The reverse proxy, proxy_server/: one module for each of its classes.
pub mod Acceptor
pub mod Config
pub mod EventLoop
pub mod System
pub mod InetAddress
pub mod ProxyServer
pub mod SocketIo
pub mod SystemCalls
pub mod TaskQueue
pub mod TcpConnection
pub mod Threadpool

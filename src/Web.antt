-- ===== src/Web.antt =====
-- include/web and src/web: what the servers do with a request, and the list of peers.
pub mod Peers
pub mod Handling
pub mod Listening
pub mod HttpServer
pub mod HttpClient
pub mod WebSocketServer
pub mod WebSocketClient

-- ===== src/Http.antt =====
-- src/server/fortai_http_server.c: the socket transport of the server.
pub mod Header
pub mod Keys
pub mod Access
pub mod Socket
pub mod Reply
pub mod Queue
pub mod Client
pub mod Server
pub mod Tests

-- ===== src/Netio/Http.antt =====
-- Http messages (netio/httpmsg.hpp, netio/hsocket_impl.hpp): the parser of requests and responses
-- that arrive in chunks, and the builder of replies.
pub mod Scan
pub mod ContentLength
pub mod Base
pub mod Request
pub mod Response
pub mod Reply
pub mod Socket
mod Tests

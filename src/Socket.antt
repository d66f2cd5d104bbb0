-- ===== src/Socket.antt =====
-- socket/: the asynchronous layer under the sockets of netio/.
pub mod Epoll

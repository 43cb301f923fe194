-- ===== src/Client.antt =====
-- client/src/core/bankClient.cpp and client/include/core/bankClient.h: the client object, its dialogue
-- with the user, and its exchange with the server.
pub mod State
pub mod Text
pub mod Number
pub mod Input
pub mod Commands
pub mod Send
pub mod Pipeline
pub mod Session
pub mod Typed
mod Tests

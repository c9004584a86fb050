-- ===== src/Server.antt =====
-- Server.cpp
pub mod Topic
pub mod Clients
pub mod Handlers
pub mod Run
pub mod Payload
pub mod Valid
pub mod Delivery
pub mod Subscriptions
pub mod Abstract
pub mod Main
pub mod Samples

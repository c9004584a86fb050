-- ===== src/UdpClient.antt =====
-- pcom_hw2_udp_client, the load generator.
pub mod Ip
pub mod Port
pub mod Base64
pub mod Client
pub mod Parser
pub mod Main
pub mod Samples

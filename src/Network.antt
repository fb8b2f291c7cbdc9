-- ===== src/Network.antt =====
-- Several nodes of dtnex.c that send each other bundles.
pub mod Keys
pub mod Copies
pub mod Sum
pub mod Delivery
pub mod Flooding
pub mod Signed
pub mod Nodes
pub mod Arrival
pub mod Coverage
pub mod Travel

-- ===== src/Geo.antt =====
-- paas-geo-monitor: the monitor of the connection to the other clusters.
pub mod Gauge
pub mod Peer
pub mod Peers
pub mod Config
pub mod Settings
pub mod Bgp
pub mod Client
pub mod Logger
pub mod Serve

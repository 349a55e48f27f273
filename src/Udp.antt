-- ===== src/Udp.antt =====
-- The two UDP forwarders: udp_proxy.go and udp_server_tunnel.go.
pub mod Sessions
pub mod Proxy
pub mod ServerTunnel

-- ===== src/Tests.antt =====
-- Concrete inputs, and each result at one of them.
mod Fixtures
mod Routing
mod Resolving
mod Forwarding
mod ServerSide
mod Configuring
mod Loading
mod Starting
mod Proxying
mod Serving
mod Launching
mod Monitoring

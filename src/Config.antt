-- ===== src/Config.antt =====
-- config.go: the parser of a configuration, over what go-ini and the outside world answer.
pub mod Source
pub mod Keys
pub mod Lists
pub mod Device
pub mod Routines
pub mod Load

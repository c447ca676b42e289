-- ===== src/Broker.antt =====
-- The broker, apps/broker: the privileged process in front of the Docker API.
pub mod Demux
pub mod Resolver
pub mod StaleImages
pub mod TarGuard
pub mod Updater

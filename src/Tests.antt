-- ===== src/Tests.antt =====
-- Runs of the definitions, and the theorems at concrete inputs.
mod Wire
mod Maps
mod Trees
mod Zsets
mod Commands
mod Conns
mod CxxMaps
mod Sockets
mod Kernels
mod Servers
mod Sessions
mod Pipelines
mod Exchanges

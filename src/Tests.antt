-- ===== src/Tests.antt =====
-- The theorems at concrete inputs, and runs of the definitions.
mod RecvEvents
mod Servers
mod Services
mod Rpcs
mod FrontEnds
mod Clients
mod Recoveries
mod Assets
mod Processes
mod Commands

-- ===== src/Tests.antt =====
-- Runs at concrete inputs, one file for each area of the program.
mod Accounts
mod Heap
mod Placement
mod Processors
mod Deployments
mod Machines
mod Hypervisors
mod Traces
mod Ledger
mod Servers
mod Clouds
mod DataCenters
mod Proxies
mod Resolvers

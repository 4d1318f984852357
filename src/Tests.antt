-- ===== src/Tests.antt =====
-- Runs of the models on concrete inputs, and the theorems at inputs that meet their hypotheses.
mod ClusterQueue
mod ClusterDispatcher
mod Buffers
mod Limits
mod PeerTables
mod ClusterWorker
mod ClusterManager
mod HostedGroups
mod MessageQueue
mod GroupTable
mod GroupClient
mod ListenHost
mod ChatRooms
mod DataFederation

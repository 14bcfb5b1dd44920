-- ===== src/Protocol/Messages.antt =====
-- The classes of requests and responses in kafka/protocol/, and the lists of their versions.
pub mod Produce
pub mod FetchResponses
pub mod FetchRequests
pub mod ListOffsets
pub mod Metadata
pub mod OffsetCommit
pub mod OffsetFetch
pub mod JoinGroup
pub mod SyncGroup
pub mod FindCoordinator
pub mod ApiVersions
pub mod Txn
pub mod OffsetForLeaderEpoch
pub mod Sasl
pub mod AdminTopics
pub mod AdminGroups
pub mod AdminAcls
pub mod AdminConfigs
pub mod AdminPartitions

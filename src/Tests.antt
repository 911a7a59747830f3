-- ===== src/Tests.antt =====
-- A small cluster in which the theorems are applied, and runs of the code in it.
mod World
mod ClusterRuns
mod LockRuns
mod ClientRuns
mod AssemblyRuns
mod StoreRuns
mod LeaseRuns
mod HandleRuns
mod DriverRuns
mod PatchRuns
mod WatchRuns
mod SharingRuns
mod SnapshotRuns

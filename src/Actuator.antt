-- ===== src/Actuator.antt =====
-- cmd/actuator: the receiver of SETs that revokes an identity in the mesh.
pub mod Dedupe
pub mod WorkloadId
pub mod Mesh
pub mod Labels
pub mod Spans
pub mod Events
pub mod Reset
pub mod Race
pub mod History
pub mod Registry
pub mod Goroutines
pub mod Concurrent
pub mod Server
pub mod Main

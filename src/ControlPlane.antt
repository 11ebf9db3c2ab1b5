-- ===== src/ControlPlane.antt =====
-- controlplane/: the service that keeps the experiments, the nodes and the queue between them.
pub mod Tests
pub mod SchedulerTests
pub mod PendingQueue
pub mod NodeRegistry
pub mod Repository
pub mod Scheduler
pub mod Server
pub mod Submission
pub mod SubmissionTests

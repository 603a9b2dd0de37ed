-- ===== src/Manager.antt =====
-- manager.py and its private modules: the decisions of a task manager on the state of a job.
pub mod Deferral
pub mod Commit
pub mod Claim
pub mod Launch
pub mod Pass
pub mod Requests
pub mod Joins
pub mod Cancellation
pub mod Failure
pub mod Outcome

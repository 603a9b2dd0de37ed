-- ===== src/Tests.antt =====
-- Runs of the model on small inputs, in which the hypotheses of the theorems hold.
mod Samples
mod Names
mod Joins
mod Journal
mod Transactions
mod Scheduling
mod Workspace
mod Manager
mod Cancellation
mod Document

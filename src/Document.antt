-- ===== src/Document.antt =====
-- models.py: the document `job.json`, its validators, and `JobDefinition.from_mapping`.
pub mod Size
pub mod Shape
pub mod Returned
pub mod Paths
pub mod Environment
pub mod Declared
pub mod Definition
pub mod Read
pub mod Pinned
pub mod Below
pub mod Rooted
pub mod Typed
pub mod Joined
pub mod FileNames
pub mod Placement

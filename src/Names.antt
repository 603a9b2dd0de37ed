-- ===== src/Names.antt =====
-- The names that the protocol coins, as lists of code points: base-36 numbers, UUIDs, labels and
-- job keys, record references and marker basenames; and the parts of a path.
pub mod Text
pub mod Base36
pub mod Uuid
pub mod RecordRef
pub mod JobKey
pub mod MarkerName
pub mod Path

-- ===== src/Persist.antt =====
-- What a replica keeps on disk: its log and two integers.
pub mod Store
pub mod Log
pub mod Vector

-- ===== src/Srun.antt =====
-- internal/srun: what the campus gateway's responses say.
pub mod Balance
pub mod Fields
pub mod Address
pub mod Csv
pub mod Status
pub mod Business
pub mod Tests

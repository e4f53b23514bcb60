-- ===== src/Models.antt =====
-- The rows of backend/app/models.py. A primary key is a uuid that the program only compares, so it
-- is a natural number here; a time is a whole number of seconds.
mod Enums
mod Keys
mod Rows
pub use Enums.*
pub use Keys.*
pub use Rows.*

-- ===== src/Cloud.antt =====
-- The cloud client of src/cloud/client.py and what the workers of src/app/workers.py keep for it: the
-- upload of readings, the retries of a request, and the results of commands that were not delivered.
pub mod Sync
mod Kept
pub mod Request
pub mod Results
mod Tests

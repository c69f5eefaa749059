-- ===== src/Worker.antt =====
-- application/worker.py: the process that runs the collections of its sources on a schedule.
pub mod Sources
pub mod Scheduler
pub mod Health

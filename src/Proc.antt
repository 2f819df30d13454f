-- ===== src/Proc.antt =====
-- kernel/proc: the process table and the scheduler.
pub mod Table
pub mod Process
pub mod Sched
pub mod Sample

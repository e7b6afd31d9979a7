-- ===== src/Tests/ClockRuns.antt =====
-- Runs of the clock driver.

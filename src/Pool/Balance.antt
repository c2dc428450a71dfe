-- ===== src/Pool/Balance.antt =====
-- The sum of the counters of an account along the runs of the pool.

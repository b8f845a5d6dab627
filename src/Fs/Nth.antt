-- ===== src/Fs/Nth.antt =====
-- The walk of `nth_cluster` along the chain of an open file.

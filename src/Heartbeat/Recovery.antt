-- ===== src/Heartbeat/Recovery.antt =====
-- What the table keeps for a restart.

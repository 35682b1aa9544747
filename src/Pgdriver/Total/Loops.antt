-- ===== src/Pgdriver/Total/Loops.antt =====
-- Every loop of driver/pgdriver/proto.go that reads replies returns.

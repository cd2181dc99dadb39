-- ===== src/Knowledge/Cleanup/Leases.antt =====
-- The lease that a claim of services/api/app/modules/knowledge/cleanup.py puts on its row.

-- ===== src/Worker/Tests.antt =====
-- Lines of /proc/<pid>/stat, at concrete values.

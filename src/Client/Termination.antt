-- ===== src/Client/Termination.antt =====
-- The attempts to connect of `openConnection` (src/serverapi.c).

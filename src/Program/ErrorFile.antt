-- ===== src/Program/ErrorFile.antt =====
-- The error file through all of `main`.
use git_sync.Flags.{Flags}

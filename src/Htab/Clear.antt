-- ===== src/Htab/Clear.antt =====
-- Emptying a table and walking over it: htab_clear and htab_foreach of lib/htab.c.
use hail.Base.{List}
use hail.Htab.{Htab}

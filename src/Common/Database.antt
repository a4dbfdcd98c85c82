-- ===== src/Common/Database.antt =====
-- The databases that the program can run on.
-- SQLite counts a row that an update leaves as it was among the affected; MySQL, by default, does
-- not.
pub data Driver : Type 0 where
  sqlite mysql : Driver

-- ===== src/Transfer/Roundtrip.antt =====
-- What is written to a buffer by a rectangle is read back from it.

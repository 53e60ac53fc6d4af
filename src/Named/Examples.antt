-- ===== src/Named/Examples.antt =====
-- The theorems on src/NamedConfig.cc at concrete texts.

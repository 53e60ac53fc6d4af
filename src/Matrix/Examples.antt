-- ===== src/Matrix/Examples.antt =====
-- The theorems on src/MatrixConfig.cc at the unset matrix.

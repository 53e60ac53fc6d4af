-- ===== src/Detection/Examples.antt =====
-- The theorem on src/DetectionConfig.cc at the unset and the default configuration.

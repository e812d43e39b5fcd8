-- ===== src/Pangolin.antt =====
-- src/pangolin: the configuration that pangolin serves.
pub mod Types
pub mod Client

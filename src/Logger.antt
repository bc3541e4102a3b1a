-- ===== src/Logger.antt =====
-- What the API writes into its traces (services/api/src/logger).
pub mod PiiMasker

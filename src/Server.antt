-- ===== src/Server.antt =====
-- What stands around the handlers: backend/middleware_cache_metrics.go.
pub mod Cache
pub mod CacheLaws
pub mod CacheReads
pub mod Limiter
pub mod LimiterLaws
pub mod Metrics
pub mod Gate
pub mod GateLaws

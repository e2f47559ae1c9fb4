-- ===== src/Ipfilter.antt =====
-- internal/ipfilter: allow and block rules for addresses, with a cache.
pub mod Filter
pub mod Verdict
pub mod Reads
pub mod Cache
pub mod Revival

-- ===== src/LossStat.antt =====
-- The proxy's statistics of lost and delayed packets (socks5udpf/src/loss_stat.cpp, dly_cache.cpp).
pub mod Stat
pub mod Delay
pub mod Bounds
mod Tests

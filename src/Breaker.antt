-- ===== src/Breaker.antt =====
-- The circuit breaker of breaker/breaker.go and breaker/options.go: its options, its sliding window,
-- and the machine that admits calls and records their outcomes.
pub mod Options
pub mod Window
pub mod Machine

-- ===== src/Examples.antt =====
-- The theorems at concrete inputs, over the fixed-point numbers of Float/Fixed.antt.
mod Governor
mod Streams
mod Configs
mod Signals
mod Trades
mod Evolution
mod Steps
mod Registry
mod Gates
mod Orders
mod Policies
mod Messages

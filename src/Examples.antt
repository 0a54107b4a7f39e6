-- ===== src/Examples.antt =====
-- The theorems about the code at concrete states and bytes.
mod Data
mod Wire
mod Serving
mod Accepting
mod Connecting
mod Dialling
mod Relaying
mod Delivering
mod Starting
mod Reaching
mod Securing

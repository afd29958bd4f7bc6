-- ===== src/Tests.antt =====
-- The theorems of the other modules at concrete inputs.
mod Strings
mod Arrays
mod Orders
mod Serial
mod Cycles
mod Startup
mod Tables
mod Generators
mod Searching
mod Kernel
mod Threads
mod Clocks
mod Flags

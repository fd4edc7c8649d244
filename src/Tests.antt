-- ===== src/Tests.antt =====
-- The theorems at concrete inputs, and runs of the code.
mod Fixtures
mod Graph
mod Layers
mod Emptied
mod Values
mod Ivf
mod Store
mod Services
mod Calls
mod Collections
mod Saved
mod Running

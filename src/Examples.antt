-- ===== src/Examples.antt =====
-- The theorems at concrete inputs, and tests of the definitions. It models no code of its own.
mod Memory
mod Process
mod Creation
mod Descriptors
mod Printing
mod Permissions
mod Buffers
mod Terminal
mod Screens
mod Disk
mod Table
mod Cuts

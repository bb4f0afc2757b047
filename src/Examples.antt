-- ===== src/Examples.antt =====
-- The theorems at concrete inputs, and small runs of the code.
mod Numbers
mod Logs
mod Manifests
mod Compactions
mod Tables
mod Memtables
mod Databases
mod Restarts

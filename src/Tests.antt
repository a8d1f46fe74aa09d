-- ===== src/Tests.antt =====
-- Runs of the models on concrete inputs, and each theorem applied at an input.
mod Filter
mod Stream
mod Packing
mod Reduction
mod Replicas
mod Modules
mod Gate
mod Accepted
mod Calls
mod Cached
mod Delegated
mod Damage

-- ===== src/Tests.antt =====
-- Tests of the model on concrete inputs, and each theorem of the header's list at one of them.
mod Fixtures
mod Mutating
mod Validating
mod Owners
mod Parts
mod Serving
mod Running
mod Registry
mod Interleaving
mod Starting

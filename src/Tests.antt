-- ===== src/Tests.antt =====
-- Concrete runs of the model, and its theorems at concrete inputs.
mod Wire
mod Packets
mod Hellos
mod Reassembly
mod Fingerprint
mod Gathering
mod Expiring
mod Serving

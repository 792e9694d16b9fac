-- ===== src/Tests.antt =====
-- Concrete runs, and the theorems at concrete inputs.
mod Packets
mod Frames
mod Datasets
mod Chunks
mod Faults
mod Lifecycles
mod Codecs
mod Inits
mod Links
mod Identities
mod Manifests
mod Versions
mod States
mod Engines
mod Queues
mod Descriptors

-- ===== src/Wire/Codes.antt =====
-- What a decoder reads back and what an encoder appends: the two relations from which the round
-- trips of the codecs are put together, and their rules for the building blocks.
pub mod Read
pub mod Sequences
pub mod Write

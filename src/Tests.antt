-- ===== src/Tests.antt =====
-- Concrete inputs: tests of the definitions, and each theorem with hypotheses at an input that meets
-- them.
mod Arguments
mod Wire
mod Cooler
mod Values
mod Writes
mod Answers
mod Clients
mod Commands
mod Output
mod Finding

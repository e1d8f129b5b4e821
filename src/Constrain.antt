-- ===== src/Constrain.antt =====
-- src/constrain.rs: the incremental JSON automaton behind constrained decoding.
pub mod Machine
pub mod Step
pub mod Stack
pub mod Events
pub mod Schema
pub mod Keys
pub mod Compile
pub mod Guide
pub mod Token

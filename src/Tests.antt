-- ===== src/Tests.antt =====
-- The theorems at concrete inputs: a pool of four blocks of two slots, one layer, prompts of a few tokens.
mod Data
mod Pool
mod Cache
mod Serve
mod Leave
mod Append
mod Schema
mod Compile
mod Quant
mod Halves
mod Decode
mod Grammar
mod Gguf
mod Engine
mod Manager

-- ===== src/Ptx.antt =====
-- software/rouge-ptx/ptx.cpp, the shared PTX front-end and its reference interpreter.
pub mod Words
pub mod Half
pub mod Narrow
pub mod Execute
pub mod Alu
pub mod Layout
pub mod Program
pub mod Params
pub mod Parse

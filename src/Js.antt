-- ===== src/Js.antt =====
-- The parts of JavaScript's standard library that the console uses.
pub mod Text
pub mod Num
pub mod Parse
pub mod Dict

-- ===== src/Runtime.antt =====
-- rt/fermi_rt.c: the library that compiled programs run on.
pub mod Map
pub mod Array
pub mod Region
pub mod Text
pub mod Output
pub mod Number

-- ===== src/Samples.antt =====
-- Concrete instances of the packages that the components take as parameters, for tests and examples.
pub mod Sets
pub mod Trees
pub mod Libs
pub mod Maps
pub mod Texts
pub mod Flows
pub mod Json
pub mod Processes

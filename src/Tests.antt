-- ===== src/Tests.antt =====
-- Concrete runs of the models, and their theorems at concrete inputs.
pub mod Ports
pub mod Instances
pub mod Traversals
pub mod Workers
pub mod Parsers

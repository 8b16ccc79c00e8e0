-- ===== src/Ice.antt =====
-- native/ice/JuiceBinding: the agent that a connection sends through.
pub mod Binding

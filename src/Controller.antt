-- ===== src/Controller.antt =====
-- The controllers of pkg/controller that act on the pool manager: ConfigMaps (the range of the
-- pool), VirtualMachines and Pods (who holds which address). The controllers that report
-- collisions are in Maccollision.
pub mod ConfigMaps
pub mod VirtualMachines
pub mod Pods

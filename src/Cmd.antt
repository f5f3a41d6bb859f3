-- ===== src/Cmd.antt =====
-- Package main of cmd/mocksbr: the simulator's command.
pub mod Values
pub mod Flags
pub mod Serve
pub mod Run

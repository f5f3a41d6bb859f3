-- ===== src/Cli.antt =====
-- Package cli: the command line.
pub mod Config
pub mod Output
pub mod Source
pub mod Errors
pub mod Get
pub mod Mac
pub mod Find
pub mod Set
pub mod Commands
pub mod Root
pub mod Version
pub mod Results
pub mod Stderr
pub mod Completion
pub mod NewClient
pub mod Params
pub mod Interfaces

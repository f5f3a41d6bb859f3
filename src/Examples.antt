-- ===== src/Examples.antt =====
-- Runs of the code's definitions on concrete inputs.
pub mod Wire
pub mod Messages
pub mod Requests
pub mod Exchanges
pub mod Values
pub mod Ini
pub mod Commands
pub mod FanOut
pub mod Sockets
pub mod Flags
pub mod EndToEnd
pub mod Results
pub mod Terminal
pub mod Completion
pub mod Serving
pub mod Opening

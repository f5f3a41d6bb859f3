-- ===== src/Go.antt =====
-- What the program uses of Go's standard library, one module for each package.
pub mod Csv
pub mod Fmt
pub mod Hex
pub mod Scan
pub mod Json
pub mod Strconv
pub mod NetIp
pub mod Strings
pub mod Utf8
pub mod Space
pub mod Lines

-- ===== src/Udap/Parameters.antt =====
-- udap/parameters.go and the value codecs of udap/getdata_response.go.
pub mod Table
pub mod Codec
pub mod RoundTrip
pub mod Canonical
pub mod Lookup

-- ===== src/Abi.antt =====
-- internal/tools/ethabi: the Solidity ABI decoder and the UCS03-ZKGM payloads.
pub mod Outcome
pub mod Schema
pub mod Words
pub mod Decoder
pub mod Hex
pub mod Hexed
pub mod Zkgm
pub mod Fits
pub mod Reads
pub mod Ends
pub mod Sound
pub mod Hostile
pub mod Payloads
pub mod Orders
pub mod Encode
pub mod Located
pub mod Lengths
pub mod Sizes
pub mod Trip
pub mod Loop
pub mod Nested
pub mod Arrays
pub mod RoundTrip
pub mod Tests
pub mod Encoded

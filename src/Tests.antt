-- ===== src/Tests.antt =====
-- The development's definitions on concrete inputs.
mod Tcp
mod Utf
mod Topics
mod Cbor
mod Codec
mod Exchange
mod Message
mod Endpoint
mod Discovery
mod Mcu
mod Node
mod Queries
mod Handles
mod Hex
mod Keys
mod Security

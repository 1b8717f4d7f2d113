-- ===== src/Protocol.antt =====
-- include/emlabcpp/protocol: values to binary messages and back.
pub mod Serializer
pub mod Converter
pub mod Handler
pub mod Packet
pub mod Sequencer
mod Tests

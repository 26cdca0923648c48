-- ===== src/Quic.antt =====
-- go/http3/internal/quic: the variable-length integers (varint.go) and the stream buffers (buffer.go)
-- of the QUIC transport.
pub mod Varint
pub mod Receive
pub mod Spans
pub mod Send
pub mod Ranges
mod Tests

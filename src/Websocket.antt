-- ===== src/Websocket.antt =====
-- go/websocket: the UTF-8 validator (utf8.go) and the frame parser (frame.go).
pub mod Utf8
pub mod Frame
mod Tests

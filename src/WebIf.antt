-- ===== src/WebIf.antt =====
-- server/src/webif/web_interface.cpp: the frames that are sent to the browsers, without a mask.
mod Tests
pub mod Messages
pub mod Frame
pub mod Send
pub mod Discard
pub mod Hub
pub mod Http
use accel_observer.Prelude.{ℕ, List, [], ◌∷◌, ◌++◌, ltb, if◌then◌else◌, length, Bytes, u8, shr}
use accel_observer.WebSocket.Client.{be_bytes}

-- the second byte and the extended length
unfoldable pub length_bytes : ℕ → Bytes
unfolding be_bytes
length_bytes len =
    if ltb len 126
    then u8 len ∷ []
    else if ltb len 65536
    then 0x7e ∷ u8 (shr len 8) ∷ u8 len ∷ []
    else 0x7f ∷ be_bytes len 8

unfoldable pub ws_encode_frame : Bytes → Bytes
unfolding length_bytes
ws_encode_frame payload = 0x81 ∷ (length_bytes (length payload) ++ payload)

-- ===== src/TpToJson.antt =====
-- The codecs TP_REPLY_TO_JSON and TP_TO_JSON of src/tp_transcode.c: MessagePack printed as JSON.
pub mod State
pub mod Internal
pub mod Value
pub mod Steps
pub mod Sizes
pub mod Openings
pub mod Render
pub mod Total
pub mod Overflow
pub mod Codec
pub mod Digits
pub mod Reply
pub mod Faults
mod Tests

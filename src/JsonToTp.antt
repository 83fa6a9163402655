-- ===== src/JsonToTp.antt =====
-- The codec YAJL_JSON_TO_TP of src/tp_transcode.c: the callbacks that turn the events of the JSON
-- parser into a Tarantool request, and the codec's entry points.
pub mod State
pub mod Callbacks
pub mod Containers
pub mod Machine
pub mod Alloc
pub mod Value
pub mod Request
pub mod Codec
mod Tests

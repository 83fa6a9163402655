-- ===== src/Reply.antt =====
-- The upstream filter of src/ngx_http_tnt_module.c: replies of Tarantool are cut out of the bytes
-- that arrive, turned into JSON, and put into the response.
pub mod Filter
pub mod Reference
pub mod Payload
pub mod Chunks
pub mod Loop
pub mod Stream
pub mod Batch
pub mod Frames
pub mod Answers
mod Tests

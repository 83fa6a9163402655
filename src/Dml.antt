-- ===== src/Dml.antt =====
-- Requests to a space by a format, in src/ngx_http_tnt_module.c: the format that the configuration
-- gives, the arguments of a request that it names, and the values that go into the request.
pub mod State
pub mod Access
pub mod Numbers
pub mod Prepare
pub mod Format
pub mod Loop
pub mod Ready
pub mod Allowed
pub mod Alike
pub mod Counts
pub mod Pairs
pub mod Exact
pub mod Tally
pub mod Ends
pub mod Compile
pub mod Formats
pub mod Compiles
pub mod Whole
pub mod Bind
pub mod Calls
pub mod Binding
pub mod Request
pub mod Operations
pub mod Update
mod Tests
mod BindTests
mod CompileTests
pub mod Iterators

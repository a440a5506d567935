-- ===== src/Protocol/Wire.antt =====
-- src/protocol/wire.hpp: integers of `width` bytes, most significant byte first, written into and
-- read from a span of bytes. A span is a list of numbers below 256.
mod Defs
mod Bytes
mod Loops
mod Slices
unfoldable pub use Defs.{write_big_endian, read_big_endian}
pub use Bytes.*
pub use Loops.*
pub use Slices.*

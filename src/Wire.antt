-- ===== src/Wire.antt =====
-- Errors and values of the wire (crates/bnetcc-proto/src/error.rs). Bytes are numbers below 256.
pub mod Number
pub mod Reader
pub mod Writer
pub mod Fields
pub mod Buffer
pub mod Framing
pub mod Frame
pub mod Bncs
pub mod Mcp
pub mod Line
pub mod Stream
mod Tests
use bnet_command_center.Base.{ℕ, List, [], ◌∷◌}
use bnet_command_center.Text.{Text}

pub data ProtoError : Type 0 where
  bad_magic : ℕ → ProtoError
  short_frame frame_too_large truncated : ℕ → ℕ → ProtoError
  unterminated_string : ProtoError
  string_too_long : ℕ → ℕ → ProtoError
  line_too_long : ℕ → ProtoError
  unexpected_packet : ℕ → Text → ProtoError
  invalid_value : Text → Text → ProtoError

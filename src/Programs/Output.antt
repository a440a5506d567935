-- ===== src/Programs/Output.antt =====
-- apps/udp_sender_main.cpp and apps/udp_receiver_main.cpp: what a program prints, and what both of
-- them read. The characters that a stream makes of a number are the standard library's, so that a
-- number printed stays a number.
use Prim.Native.String.{String}
use driveflow_runtime.Prelude.{ℕ, ◌^◌, Option, none, some, List, ◌∷◌, ltb, if◌then◌else◌}
use driveflow_runtime.Prelude.Result.{
  Result, ok, throws, Exception, invalid_argument, length_error, runtime_error, system_error,
}
use driveflow_runtime.Prelude.Parsing.{parse_unsigned}
use driveflow_runtime.Net.{Text, Ipv4Endpoint}

-- What one `<<` prints: a literal, the characters of a string, an integer, and a float or a double by
-- its bit pattern.
pub data Piece : Type 0 where
  literal : String → Piece
  characters : Text → Piece
  number float double : ℕ → Piece

-- What is printed on std::cout and std::cerr, and what `main` returns.
pub record Exit : Type 0 where
  pub status : ℕ
  pub out : List Piece
  pub err : List Piece

-- `error.what()`
abbrev pub what : Exception → String
what (invalid_argument message) = message
what (length_error message) = message
what (runtime_error message) = message
what (system_error message) = message

abbrev pub print_endpoint : Ipv4Endpoint → List Piece → List Piece
print_endpoint endpoint rest =
    characters endpoint.address ∷ literal ":" ∷ number endpoint.port ∷ rest

abbrev port_of : Option ℕ → Result ℕ
port_of none = throws (invalid_argument "port must be an integer between 0 and 65535")
port_of (some value) =
    if ltb 65535 value
    then throws (invalid_argument "port must be an integer between 0 and 65535")
    else ok value

-- An `unsigned int` is of 32 bits.
unfoldable pub parse_port : Text → Result ℕ
parse_port text = port_of (parse_unsigned (2 ^ 32) text)

-- ===== src/Message.antt =====
-- light_message.cpp: the frames of the peer-to-peer protocol, 24 bytes and a payload. A command is
-- the list of its character codes.
pub mod Exact
pub mod Frame
pub mod RoundTrip
pub mod Failure
pub mod Keeps
use mvclight.Base.{
  ℕ, zero, suc, ◌-◌, ◌*◌, ◌||◌, ◌==◌, Bool, true, false, List, [], ◌∷◌, ◌++◌, Option, none, some,
  ltb, if◌then◌else◌, length, take, drop, replicate,
}
use mvclight.Wire.{Bytes, write_le, read_le32}
use mvclight.Uint256.{eq as text_eq}
use mvclight.Sha256.{sha256d}
use mvclight.Socket.{LightSocket, close, recv_some}

abbrev pub header_size : ℕ
header_size = 24

abbrev pub command_size : ℕ
command_size = 12

abbrev pub max_payload_size : ℕ
max_payload_size = 32 * 1024 * 1024

abbrev pub mainnet_magic : Bytes
mainnet_magic = 0x52 ∷ 0x9b ∷ 0x68 ∷ 0x96 ∷ []

abbrev pub testnet_magic : Bytes
testnet_magic = 0xd4 ∷ 0x48 ∷ 0x28 ∷ 0x12 ∷ []

pub record LightMessage : Type 0 where
  pub command : Bytes
  pub payload : Bytes

more : Bytes → LightSocket × Option Bytes → LightSocket × Option Bytes
more got (s, none) = (s, none)
more got (s, some rest) = (s, some (got ++ rest))

-- One turn of `ReadExact`: no byte ends the loop with false, else it goes on behind the bytes.
go_on :
    LightSocket × Bytes
    → (LightSocket → ℕ → LightSocket × Option Bytes)
    → LightSocket × Option Bytes
unfolding more
go_on (s, []) next = (s, none)
go_on (s, b ∷ bs) next = more (b ∷ bs) (next s (length bs))

-- The loop of `ReadExact`: `none` is the result false. Every turn gives a byte, so the length is
-- enough fuel.
unfoldable pub read_loop : ℕ → LightSocket → ℕ → LightSocket × Option Bytes
unfolding go_on
read_loop n s zero = (s, some [])
read_loop zero s (suc len) = (s, none)
read_loop (suc n) s (suc len) = go_on (recv_some s (suc len)) (λ s' got. read_loop n s' (len - got))

unfoldable pub read_exact : LightSocket → ℕ → LightSocket × Option Bytes
read_exact s len = read_loop len s len

-- The first four bytes of the double hash, as a number.
pub checksum_of : Bytes → ℕ
checksum_of payload = read_le32 (sha256d payload)

-- `none` is the result false.
unfoldable pub encode_message : Bytes → LightMessage → Option Bytes
encode_message magic msg =
    if ltb command_size (length msg.command) || ltb max_payload_size (length msg.payload)
    then none
    else some (
        take 4 magic
        ++ (msg.command
            ++ (replicate (command_size - length msg.command) 0
                ++ (write_le 4 (length msg.payload)
                    ++ (write_le 4 (checksum_of msg.payload) ++ msg.payload)))))

unfoldable pub verify_checksum : Bytes → ℕ → Bool
verify_checksum payload checksum = checksum_of payload == checksum

-- `strnlen`: the bytes before the first zero.
unfoldable pub until_zero : Bytes → Bytes
until_zero [] = []
until_zero (c ∷ cs) = if c == 0 then [] else c ∷ until_zero cs

-- The end of `ReadMessage`, once the payload has been read or not.
unfoldable pub finish_read :
    Bytes → ℕ → LightSocket × Option Bytes → LightSocket × Option LightMessage
unfolding close
finish_read command checksum (s, none) = (close s, none)
finish_read command checksum (s, some payload) =
    if verify_checksum payload checksum
    then (s, some (record { command = command; payload = payload }))
    else (close s, none)

-- `ReadMessage` once the header has been read or not. Every failure closes the socket.
unfoldable pub read_body : Bytes → LightSocket × Option Bytes → LightSocket × Option LightMessage
unfolding close
read_body magic (s, none) = (close s, none)
read_body magic (s, some header) =
    if text_eq (take 4 header) (take 4 magic)
    then (if ltb max_payload_size (read_le32 (drop 16 header))
        then (close s, none)
        else finish_read (until_zero (take command_size (drop 4 header)))
            (read_le32 (drop 20 header)) (read_exact s (read_le32 (drop 16 header))))
    else (close s, none)

unfoldable pub read_message : Bytes → LightSocket → LightSocket × Option LightMessage
read_message magic s = read_body magic (read_exact s header_size)

-- ===== src/Net/Frame.antt =====
-- crates/flowkey-net/src/frame.rs: a message on the wire, behind its length and its type. A stream
-- is the list of the bytes that are still to come, or that were written. The encoding of the
-- payload is bincode's, a parameter.
pub mod RoundTrip
use flowkey.Base.{
  ℕ, zero, suc, ◌+◌, ◌*◌, ◌/◌, ◌%◌, ◌^◌, ◌<◌, ◌≡◌, Option, none, some, List, [], ◌∷◌, ◌++◌, length,
  ltb, nat_eq, if◌then◌else◌,
}
use flowkey.Base.Result.{Result, ok, err, ok_or, ◌>>=◌}
use flowkey.Net.Message.{
  Message, hello, hello_ack, auth_challenge, auth_response, auth_result, switch_request,
  switch_release, input_event, heartbeat, error,
}

-- bincode's encoding of a message, and its decoding.
pub record Codec : Type 0 where
  pub serialize : Message → List ℕ
  pub deserialize : List ℕ → Option Message

pub data FrameError : Type 0 where
  payload_too_large truncated undecodable type_mismatch : FrameError

abbrev pub frame_header_len : ℕ
frame_header_len = 4 + 1

unfoldable pub message_type : Message → ℕ
message_type (hello _) = 0x01
message_type (hello_ack _) = 0x02
message_type (auth_challenge _) = 0x03
message_type (auth_response _) = 0x04
message_type (auth_result _) = 0x05
message_type (switch_request _ _) = 0x06
message_type (switch_release _) = 0x07
message_type (input_event _ _) = 0x08
message_type heartbeat = 0x09
message_type (error _ _) = 0x0A

-- `u32::to_be_bytes`.
unfoldable pub to_be_bytes : ℕ → List ℕ
to_be_bytes n = (n / 2 ^ 24 % 256) ∷ (n / 2 ^ 16 % 256) ∷ (n / 2 ^ 8 % 256) ∷ (n % 256) ∷ []

-- `read_u32`, `read_u8` and `read_exact`: a stream that ends too early is an error.
unfoldable pub read_u32 : List ℕ → Result FrameError (ℕ × List ℕ)
read_u32 (a ∷ b ∷ c ∷ d ∷ rest) = ok (a * 2 ^ 24 + b * 2 ^ 16 + c * 2 ^ 8 + d, rest)
read_u32 _ = err truncated

unfoldable pub read_u8 : List ℕ → Result FrameError (ℕ × List ℕ)
read_u8 (a ∷ rest) = ok (a, rest)
read_u8 [] = err truncated

-- The next byte in front of those that were read behind it.
put_first : ℕ → Result FrameError (List ℕ × List ℕ) → Result FrameError (List ℕ × List ℕ)
put_first b (ok (read, rest)) = ok (b ∷ read, rest)
put_first b (err e) = err e

unfoldable pub read_exact : ℕ → List ℕ → Result FrameError (List ℕ × List ℕ)
unfolding put_first
read_exact zero stream = ok ([], stream)
read_exact (suc n) [] = err truncated
read_exact (suc n) (b ∷ stream) = put_first b (read_exact n stream)

module _ (codec : Codec) where
  -- What goes on the wire, and how many bytes that is.
  unfoldable pub write_message : Message → Result FrameError (List ℕ × ℕ)
  unfolding to_be_bytes message_type
  write_message m =
      let payload = codec.serialize m in
      let buf = to_be_bytes (length payload) ++ message_type m ∷ payload in
      if ltb (length payload) (2 ^ 32) then ok (buf, length buf) else err payload_too_large

  -- A message of another type than the header's is refused.
  check_type : ℕ → Message → ℕ → List ℕ → Result FrameError ((Message × ℕ) × List ℕ)
  unfolding message_type
  check_type header m payload_len rest =
      if nat_eq header (message_type m)
      then ok ((m, frame_header_len + payload_len), rest)
      else err type_mismatch

  -- The message, the bytes that it took, and the stream behind it.
  unfoldable pub read_message_metered : List ℕ → Result FrameError ((Message × ℕ) × List ℕ)
  unfolding read_u32 read_u8 read_exact check_type
  read_message_metered stream = do
    (payload_len, s1) ← read_u32 stream
    (header, s2) ← read_u8 s1
    (payload, rest) ← read_exact payload_len s2
    m ← ok_or (codec.deserialize payload) undecodable
    check_type header m payload_len rest

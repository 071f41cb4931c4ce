-- ===== src/Net/Frame/RoundTrip.antt =====
-- Frames are read back as they were written, one behind the other. The codec's documented behaviour
-- is a hypothesis on the message at hand: what it encodes it decodes again.
use mathlib.Core.List.{append_assoc}
use flowkey.Base.{
  ℕ, ◌+◌, ◌*◌, ◌/◌, ◌%◌, ◌^◌, ◌<◌, ◌≡◌, refl, List, [], ◌∷◌, ◌++◌, length, some, arith, nat_eq_iff,
  ap, ◌≢◌,
}
use flowkey.Base.Result.{Result, ok, err}
use flowkey.Net.Message.{Message}
use flowkey.Net.Frame.{
  Codec, FrameError, type_mismatch, frame_header_len, message_type, to_be_bytes, read_u32, read_u8,
  read_exact, write_message, read_message_metered,
}

pub read_u32-to_be_bytes :
    (n : ℕ) (rest : List ℕ) → n < 2 ^ 32 → read_u32 (to_be_bytes n ++ rest) ≡ ok (n, rest)
unfolding read_u32 to_be_bytes
read_u32-to_be_bytes n rest h =
    ap {B = Result FrameError (ℕ × List ℕ)} (λ k. ok (k, rest)) (bytes n h)
  where
    bytes :
        (n : ℕ)
        → n < 2 ^ 32
        → n / 2 ^ 24 % 256 * 2 ^ 24 + n / 2 ^ 16 % 256 * 2 ^ 16 + n / 2 ^ 8 % 256 * 2 ^ 8 + n % 256
          ≡ n
    bytes n h = omega arith

pub read_exact-append :
    (bytes rest : List ℕ) → read_exact (length bytes) (bytes ++ rest) ≡ ok (bytes, rest)
unfolding read_exact
read_exact-append [] rest = refl
read_exact-append (b ∷ bytes) rest = rw (read_exact-append bytes rest) refl

module _ (codec : Codec) where
  read_frame :
      (m : Message) (rest : List ℕ)
      → codec.deserialize (codec.serialize m) ≡ some m
      → length (codec.serialize m) < 2 ^ 32
      → read_message_metered codec (
          to_be_bytes (length (codec.serialize m))
          ++ (message_type m ∷ (codec.serialize m ++ rest)))
        ≡ ok ((m, frame_header_len + length (codec.serialize m)), rest)
  unfolding read_message_metered read_u8
  read_frame m rest back h =
      rw
        (
          read_message_metered,
          read_u32-to_be_bytes (length (codec.serialize m))
              (message_type m ∷ (codec.serialize m ++ rest)) h,
          read_exact-append (codec.serialize m) rest,
          back,
          (nat_eq_iff (message_type m) (message_type m)).1 refl,
        )
        refl

  length-frame :
      (m : Message)
      → length (to_be_bytes (length (codec.serialize m)) ++ message_type m ∷ codec.serialize m)
        ≡ frame_header_len + length (codec.serialize m)
  unfolding to_be_bytes
  length-frame m = omega arith

  written :
      (m : Message) (bytes : List ℕ) (n : ℕ)
      → write_message codec m ≡ ok (bytes, n)
      → (length (codec.serialize m) < 2 ^ 32)
        × (bytes ≡ to_be_bytes (length (codec.serialize m)) ++ message_type m ∷ codec.serialize m)
        × (n ≡ frame_header_len + length (codec.serialize m))
  unfolding write_message
  written m bytes n h = ground (arith, length-frame m)

  -- A message that was written, and whose encoding decodes to it, is read back, with the number of bytes that the writer counted, and
  -- the stream behind it is left as it was.
  pub read_message-write_message :
      (m : Message) (bytes rest : List ℕ) (n : ℕ)
      → codec.deserialize (codec.serialize m) ≡ some m
      → write_message codec m ≡ ok (bytes, n)
      → read_message_metered codec (bytes ++ rest) ≡ ok ((m, n), rest)
  read_message-write_message m bytes rest n back h =
      let (fits, same, count) = written m bytes n h in
      rw
        (
          same,
          count,
          append_assoc (to_be_bytes (length (codec.serialize m)))
              (message_type m ∷ codec.serialize m) rest,
        )
        (read_frame m rest back fits)

  -- A frame whose header names another type than its payload, which decodes, has is refused.
  pub read_message-type_mismatch :
      (m : Message) (header : ℕ) (rest : List ℕ)
      → codec.deserialize (codec.serialize m) ≡ some m
      → length (codec.serialize m) < 2 ^ 32
      → header ≢ message_type m
      → read_message_metered codec
          (to_be_bytes (length (codec.serialize m)) ++ (header ∷ (codec.serialize m ++ rest)))
        ≡ err type_mismatch
  unfolding read_message_metered read_u8
  read_message-type_mismatch m header rest back h d =
      rw
        (
          read_message_metered,
          read_u32-to_be_bytes (length (codec.serialize m)) (header ∷ (codec.serialize m ++ rest))
              h,
          read_exact-append (codec.serialize m) rest,
          back,
        )
        (ground arith)

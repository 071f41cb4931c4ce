-- ===== src/Net/Pairing/Frames.antt =====
-- The frames of a pairing's messages: a message that is written is read back.
use mathlib.Core.List.{append_assoc, append-nil}
use native.Mathlib.Nat.{mod-eq_of_lt}
use flowkey.Base.{
  ℕ, suc, ltb, false, ◌^◌, ◌≤◌, ◌<◌, ◌≡◌, refl, ◌∙◌, some, none, Option, inl, inr, Bool-cases, List,
  ◌++◌, length, arith,
}
use flowkey.Base.Result.{Result, ok, err}
use flowkey.Net.Frame.{to_be_bytes, FrameError, read_u32, read_exact}
use flowkey.Net.Frame.RoundTrip.{read_u32-to_be_bytes, read_exact-append}
use flowkey.Net.Pairing.{
  PairingMessage, PairingCodec, Stream, read_payload, read_pairing_message, write_pairing_message,
  next_u32, next_bytes, Step, then_run, taken, decoded, as_acknowledge, propose, acknowledge,
  accept, reject, PairingError,
}

pub then_run-sent :
    {A B : Type 0} (f : A → Step B) (x : Stream × Result PairingError A)
    → ((a : A) (s : Stream) → (f a s).0.sent ≡ s.sent)
    → (then_run f x).0.sent ≡ x.0.sent
then_run-sent f (s, ok a) h = h a s
then_run-sent f (s, err e) h = refl

taken-sent :
    {A : Type 0} (s : Stream) (r : Result FrameError (A × List ℕ)) → (taken s r).0.sent ≡ s.sent
taken-sent s (ok (a, rest)) = refl
taken-sent s (err e) = refl

decoded-sent : (o : Option PairingMessage) (s : Stream) → (decoded o s).0.sent ≡ s.sent
decoded-sent none s = refl
decoded-sent (some m) s = refl

pub as_acknowledge-sent : (m : PairingMessage) (s : Stream) → (as_acknowledge m s).0.sent ≡ s.sent
as_acknowledge-sent (propose _ _ _ _) s = refl
as_acknowledge-sent (acknowledge _ _ _ _) s = refl
as_acknowledge-sent accept s = refl
as_acknowledge-sent reject s = refl

module _ (codec : PairingCodec) where
  read_payload-sent : (len : ℕ) (s : Stream) → (read_payload codec len s).0.sent ≡ s.sent
  unfolding read_payload next_bytes
  read_payload-sent len s = elim (Bool-cases (ltb 65536 len)) [
    | inl e ↦ rw e refl
    | inr e ↦ rw e (
        then_run-sent (λ buf. decoded (codec.deserialize buf)) (next_bytes len s)
          (λ buf. decoded-sent (codec.deserialize buf))
        ∙ taken-sent s (read_exact len s.incoming))
  ]

  -- Reading leaves what was written.
  pub read-sent : (s : Stream) → (read_pairing_message codec s).0.sent ≡ s.sent
  unfolding read_pairing_message next_u32
  read-sent s =
      then_run-sent (read_payload codec) (next_u32 s) read_payload-sent
      ∙ taken-sent s (read_u32 s.incoming)

  -- A message that the peer reads back: its encoding decodes to it and is short enough.
  pub record Readable (m : PairingMessage) : Type 0 where
    pub back : codec.deserialize (codec.serialize m) ≡ some m
    pub short : length (codec.serialize m) ≤ 65536

  abbrev pub frame : PairingMessage → List ℕ
  frame m = to_be_bytes (length (codec.serialize m)) ++ codec.serialize m

  not_long : (m : PairingMessage) → Readable m → ltb 65536 (length (codec.serialize m)) ≡ false
  not_long m r = ground (arith, r.short)

  small : (m : PairingMessage) → Readable m → length (codec.serialize m) < 2 ^ 32
  small m r = omega (arith, r.short)

  read_long :
      (m : PairingMessage) (s : Stream) (rest : List ℕ)
      → Readable m
      → read_payload codec
          (length (codec.serialize m))
          (record s { incoming = codec.serialize m ++ rest })
        ≡ (record s { incoming = rest }, ok m)
  unfolding read_payload next_bytes
  read_long m s rest r = rw (not_long m r, read_exact-append (codec.serialize m) rest, r.back) refl

  pub read_frame :
      (m : PairingMessage) (s : Stream) (rest : List ℕ)
      → Readable m
      → s.incoming ≡ frame m ++ rest
      → read_pairing_message codec s ≡ (record s { incoming = rest }, ok m)
  unfolding read_pairing_message read_payload next_u32 next_bytes
  read_frame m s rest r h =
      rw
        (
          h,
          append_assoc (to_be_bytes (length (codec.serialize m))) (codec.serialize m) rest,
          read_u32-to_be_bytes (length (codec.serialize m)) (codec.serialize m ++ rest) (small m r),
        )
        (read_long m s rest r)

  pub write_frame :
      (m : PairingMessage) (s : Stream) (left : ℕ)
      → Readable m
      → s.writable ≡ suc (suc (suc left))
      → write_pairing_message codec m s
        ≡ (record s { writable = left; sent = s.sent ++ frame m }, ok tt)
  unfolding write_pairing_message
  write_frame m s left r h =
      rw
        (
          h,
          mod-eq_of_lt (small m r),
          append_assoc s.sent (to_be_bytes (length (codec.serialize m))) (codec.serialize m),
          append-nil (s.sent ++ frame m),
        )
        refl

-- ===== src/Crypto/Pairing.antt =====
-- crates/flowkey-crypto/src/handshake.rs: the signed offer of a pairing and the token that carries it.
pub mod Tokens
pub mod Soundness
use flowkey.Base.{
  ℕ, ◌+◌, ◌%◌, ◌^◌, String, Bool, true, false, not, ◌&&◌, Option, List, [], ◌∷◌, ◌++◌, codes, ltb,
  ◌==◌, String_eq, if◌then◌else◌, append, split,
}
use flowkey.Base.Result.{Result, ok, err, ok_or, ◌>>=◌}
use flowkey.Crypto.Session.{
  Primitives, CryptoError, NodeIdentity, signing_key_from_base64, verifying_key,
  signature_from_bytes, check_signature, undecodable_signature,
}

pub record HandshakeOffer : Type 0 where
  pub version : ℕ
  pub short_code : String
  pub node : NodeIdentity
  pub expires_at_epoch_secs : ℕ
  pub nonce : String
  pub signature : String

pub record UnsignedHandshakeOffer : Type 0 where
  pub version : ℕ
  pub short_code : String
  pub node : NodeIdentity
  pub expires_at_epoch_secs : ℕ
  pub nonce : String

-- What `HandshakeOffer::new` draws and reads: two random texts, and the clock in seconds.
pub record Fresh : Type 0 where
  pub code_fragment : String
  pub nonce_fragment : String
  pub now : ℕ

pub data TokenError : Type 0 where
  missing_prefix missing_marker missing_short_code missing_payload : TokenError
  unsupported_prefix extra_segments undecodable_payload unparsable_payload : TokenError
  short_code_mismatch expired : TokenError
  unverified : CryptoError → TokenError

-- serde_json on offers, and the standard library's `to_uppercase`.
pub record OfferText : Type 0 where
  pub unsigned_to_json : UnsignedHandshakeOffer → List ℕ
  pub offer_to_json : HandshakeOffer → List ℕ
  pub offer_from_json : List ℕ → Option HandshakeOffer
  pub to_uppercase : String → String

abbrev default_expiry_secs : ℕ
default_expiry_secs = 600

-- The sum of u64s, as a release build forms it.
abbrev expiry : ℕ → ℕ
expiry now = (now + default_expiry_secs) % 2 ^ 64

-- `HandshakeOffer::unsigned`.
abbrev pub unsigned : HandshakeOffer → UnsignedHandshakeOffer
unsigned offer = record {
  version = offer.version;
  short_code = offer.short_code;
  node = offer.node;
  expires_at_epoch_secs = offer.expires_at_epoch_secs;
  nonce = offer.nonce;
}

abbrev with_signature : UnsignedHandshakeOffer → String → HandshakeOffer
with_signature u signature = record {
  version = u.version;
  short_code = u.short_code;
  node = u.node;
  expires_at_epoch_secs = u.expires_at_epoch_secs;
  nonce = u.nonce;
  signature = signature;
}

unfoldable pub is_expired : ℕ → HandshakeOffer → Bool
is_expired now offer = ltb offer.expires_at_epoch_secs now

abbrev no_segments : List String → Bool
no_segments [] = true
no_segments (_ ∷ _) = false

abbrev to_token_error {ℓ} : {A : Type ℓ} → Result CryptoError A → Result TokenError A
to_token_error (ok a) = ok a
to_token_error (err e) = err (unverified e)

module _ (prim : Primitives) (texts : OfferText) where
  abbrev pub offer_bytes : UnsignedHandshakeOffer → List ℕ
  offer_bytes u = codes "flowkey-pairing-offer-v1" ++ b':' ∷ texts.unsigned_to_json u

  -- The offer as it is before it is signed.
  abbrev pub fresh_offer : Fresh → NodeIdentity → UnsignedHandshakeOffer
  fresh_offer fresh node = record {
    version = 1;
    short_code = texts.to_uppercase fresh.code_fragment;
    node = node;
    expires_at_epoch_secs = expiry fresh.now;
    nonce = fresh.nonce_fragment;
  }

  abbrev pub sign_offer : UnsignedHandshakeOffer → List ℕ → HandshakeOffer
  sign_offer u key = with_signature u (prim.encode_url_safe (prim.sign key (offer_bytes u)))

  -- `HandshakeOffer::new`.
  unfoldable pub new_offer : Fresh → NodeIdentity → String → Result CryptoError HandshakeOffer
  unfolding signing_key_from_base64
  new_offer fresh node encoded_private_key = do
    key ← signing_key_from_base64 prim encoded_private_key
    ok (sign_offer (fresh_offer fresh node) key)

  unfoldable pub to_token : HandshakeOffer → String
  to_token offer =
      append "v1.pair." (
        append offer.short_code (String.◌∷◌ "." (prim.encode_url_safe (texts.offer_to_json offer))))

  unfoldable pub verify_offer : HandshakeOffer → Result CryptoError (Unit {0})
  unfolding verifying_key signature_from_bytes check_signature
  verify_offer offer = do
    key ← verifying_key prim offer.node
    bytes ← ok_or (prim.decode_url_safe offer.signature) undecodable_signature
    signature ← signature_from_bytes prim bytes
    check_signature prim key (offer_bytes (unsigned offer)) signature

  -- The checks of an offer that a payload holds.
  check_offer : ℕ → String → HandshakeOffer → Result TokenError HandshakeOffer
  unfolding is_expired verify_offer
  check_offer now short_code offer =
      if not (offer.short_code == short_code)
      then err short_code_mismatch
      else if is_expired now offer
      then err expired
      else to_token_error (verify_offer offer) >>= λ _. ok offer

  read_payload : ℕ → String → String → Result TokenError HandshakeOffer
  unfolding check_offer
  read_payload now short_code payload = do
    decoded ← ok_or (prim.decode_url_safe payload) undecodable_payload
    offer ← ok_or (texts.offer_from_json decoded) unparsable_payload
    check_offer now short_code offer

  -- `from_token` on the segments of the token.
  from_segments : ℕ → List String → Result TokenError HandshakeOffer
  unfolding read_payload
  from_segments now [] = err missing_prefix
  from_segments now (_ ∷ []) = err missing_marker
  from_segments now (_ ∷ _ ∷ []) = err missing_short_code
  from_segments now (_ ∷ _ ∷ _ ∷ []) = err missing_payload
  from_segments now (prefix_a ∷ prefix_b ∷ short_code ∷ payload ∷ others) =
      if not (prefix_a == "v1" && prefix_b == "pair")
      then err unsupported_prefix
      else if not (no_segments others)
      then err extra_segments
      else read_payload now short_code payload

  unfoldable pub from_token : ℕ → String → Result TokenError HandshakeOffer
  unfolding from_segments
  from_token now token = from_segments now (split b'.' token)

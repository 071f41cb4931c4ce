-- ===== src/Crypto/Pairing/Tokens.antt =====
-- The way of an offer through a token.
use native.Mathlib.Nat.{mod-eq_of_lt}
use flowkey.Base.{
  ℕ, ◌+◌, ◌^◌, ◌≤◌, ◌<◌, String, false, some, ◌≡◌, List, [], ◌∷◌, refl, sym, ap, subst, ◌∙◌, arith,
  eq_iff, append, split, Without, split-append, split_one,
}
use flowkey.Base.Result.{ok, ok-injective}
use flowkey.Crypto.Session.{Primitives, NodeIdentity}
use flowkey.Crypto.Session.Signing.{KeyPair}
use flowkey.Crypto.Pairing.{
  HandshakeOffer, Fresh, OfferText, is_expired, offer_bytes, fresh_offer, sign_offer, new_offer,
  to_token, verify_offer, from_token,
}

module _ (prim : Primitives) (texts : OfferText) where
  -- The segments of a token.
  split-token :
      (short_code payload : String)
      → Without b'.' short_code
      → Without b'.' payload
      → split b'.' (append "v1.pair." (append short_code (String.◌∷◌ "." payload)))
        ≡ "v1" ∷ "pair" ∷ short_code ∷ payload ∷ []
  split-token short_code payload h k =
      ap (λ parts. "v1" ∷ "pair" ∷ parts)
        (split-append b'.' "." short_code payload refl h
          ∙ ap (λ parts. short_code ∷ parts) (split_one b'.' payload k))

  -- An offer that verifies comes back from its token until it expires.
  pub from_token-to_token :
      (now : ℕ) (offer : HandshakeOffer)
      → texts.offer_from_json (texts.offer_to_json offer) ≡ some offer
      → Without b'.' offer.short_code
      → Without b'.' (prim.encode_url_safe (texts.offer_to_json offer))
      → verify_offer prim texts offer ≡ ok tt
      → is_expired now offer ≡ false
      → from_token prim texts now (to_token prim texts offer) ≡ ok offer
  unfolding from_token to_token
  from_token-to_token now offer json short payload verified live =
      rw
        (
          split-token offer.short_code (prim.encode_url_safe (texts.offer_to_json offer)) short
              payload,
          prim.decode-encode (texts.offer_to_json offer),
          json,
          (eq_iff offer.short_code offer.short_code).1 refl,
          live,
          verified,
        )
        refl

  -- What a key signs verifies under its public half.
  verify_offer-sign_offer :
      (fresh : Fresh) (private_key : String) (node : NodeIdentity)
      (pair : KeyPair prim private_key node)
      → verify_offer prim texts (sign_offer prim texts (fresh_offer prim texts fresh node) pair.key)
        ≡ ok tt
  unfolding verify_offer
  verify_offer-sign_offer fresh private_key node pair =
      let bytes = offer_bytes prim texts (fresh_offer prim texts fresh node) in
      ground (
        arith,
        pair.public_decodes,
        prim.length-public_half pair.key,
        prim.public_half-key pair.key,
        prim.decode-encode (prim.sign pair.key bytes),
        prim.length-sign pair.key bytes,
        prim.verify-sign pair.key bytes,
      )

  new_offer-signed :
      (fresh : Fresh) (private_key : String) (node : NodeIdentity)
      (pair : KeyPair prim private_key node)
      → new_offer prim texts fresh node private_key
        ≡ ok (sign_offer prim texts (fresh_offer prim texts fresh node) pair.key)
  unfolding new_offer
  new_offer-signed fresh private_key node pair =
      ground (arith, pair.private_decodes, pair.private_length)

  live :
      (fresh : Fresh) (private_key : String) (node : NodeIdentity)
      (pair : KeyPair prim private_key node) (now : ℕ)
      → fresh.now + 600 < 2 ^ 64
      → now ≤ fresh.now + 600
      → is_expired now (sign_offer prim texts (fresh_offer prim texts fresh node) pair.key) ≡ false
  unfolding is_expired
  live fresh private_key node pair now small soon = rw (mod-eq_of_lt small) (ground arith)

  signed_returns :
      (fresh : Fresh) (private_key : String) (node : NodeIdentity)
      (pair : KeyPair prim private_key node) (now : ℕ) (offer : HandshakeOffer)
      → sign_offer prim texts (fresh_offer prim texts fresh node) pair.key ≡ offer
      → fresh.now + 600 < 2 ^ 64
      → now ≤ fresh.now + 600
      → (verify_offer prim texts offer ≡ ok tt) × (is_expired now offer ≡ false)
  signed_returns fresh private_key node pair now offer e small soon =
      subst (λ o. (verify_offer prim texts o ≡ ok tt) × (is_expired now o ≡ false)) e
        (
          verify_offer-sign_offer fresh private_key node pair,
          live fresh private_key node pair now small soon,
        )

  -- An offer that a node makes with its key pair (at a time whose expiry is a u64, with a short
  -- code without a dot) comes back from its token for the 600 seconds that follow, when
  -- deserializing undoes serializing the offer and base64 writes no dot.
  pub new_offer_returns :
      (fresh : Fresh) (private_key : String) (node : NodeIdentity) (offer : HandshakeOffer)
      (now : ℕ)
      → KeyPair prim private_key node
      → new_offer prim texts fresh node private_key ≡ ok offer
      → texts.offer_from_json (texts.offer_to_json offer) ≡ some offer
      → ((bytes : List ℕ) → Without b'.' (prim.encode_url_safe bytes))
      → Without b'.' offer.short_code
      → fresh.now + 600 < 2 ^ 64
      → now ≤ fresh.now + 600
      → from_token prim texts now (to_token prim texts offer) ≡ ok offer
  new_offer_returns fresh private_key node offer now pair made json dotless short small soon =
      let made_by_key =
        signed_returns fresh private_key node pair now offer
          (ok-injective (sym (new_offer-signed fresh private_key node pair) ∙ made)) small soon in
      from_token-to_token now offer json short (dotless (texts.offer_to_json offer)) made_by_key.0
        made_by_key.1

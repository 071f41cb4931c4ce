-- ===== src/Crypto/Pairing/Soundness.antt =====
-- What a token that is taken shows.
use flowkey.Base.{
  ℕ, String, true, false, some, ◌≡◌, List, [], ◌∷◌, arith, inl, inr, Bool-cases, eq_iff, split,
  ◌==◌, String_eq, ◌&&◌, sym, ◌∙◌, refl, subst,
}
use flowkey.Base.Result.{Result, ok, err, ok_or, ◌>>=◌, ok-injective, >>=-eq-ok, ok_or-eq-ok}
use flowkey.Crypto.Session.{Primitives, CryptoError}
use flowkey.Crypto.Pairing.{
  HandshakeOffer, OfferText, undecodable_payload, unparsable_payload, to_token_error, is_expired,
  verify_offer, check_offer, read_payload, from_segments, from_token,
}

passed :
    {A : Type 0} (r : Result CryptoError (Unit {0})) (a b : A)
    → (to_token_error r >>= λ _. ok a) ≡ ok b
    → (a ≡ b) × (r ≡ ok tt)
passed (ok tt) a b h = (ok-injective h, refl)
passed (err e) a b h = cc

prefix_a_is : (a b : String) → (a == "v1" && b == "pair") ≡ true → a ≡ "v1"
prefix_a_is a b e = ground (arith, eq_iff a "v1")

prefix_b_is : (a b : String) → (a == "v1" && b == "pair") ≡ true → b ≡ "pair"
prefix_b_is a b e = ground (arith, eq_iff b "pair")

module _ (prim : Primitives) (texts : OfferText) where
  check_offer_sound :
      (now : ℕ) (short_code : String) (offer taken : HandshakeOffer)
      → check_offer prim texts now short_code offer ≡ ok taken
      → (offer ≡ taken)
        × (offer.short_code ≡ short_code)
        × (is_expired now offer ≡ false)
        × (verify_offer prim texts offer ≡ ok tt)
  unfolding check_offer
  check_offer_sound now short_code offer taken h = elim (Bool-cases (is_expired now offer)) [
    | inl e ↦ absurd (ground (arith, e))
    | inr e ↦ elim (Bool-cases (offer.short_code == short_code)) [
      | inl f ↦
          let (same, verified) =
            passed (verify_offer prim texts offer) offer taken (sym (rw (f, e) refl) ∙ h) in
          (same, (eq_iff offer.short_code short_code).0 f, e, verified)
      | inr f ↦ absurd (ground (arith, f))
    ]
  ]

  -- The payload of a token that is taken.
  pub record Payload (now : ℕ) (payload : String) (offer : HandshakeOffer) : Type 0 where
    pub bytes : List ℕ
    pub decoded : prim.decode_url_safe payload ≡ some bytes
    pub parsed : texts.offer_from_json bytes ≡ some offer
    pub unexpired : is_expired now offer ≡ false
    pub verified : verify_offer prim texts offer ≡ ok tt

  read_payload_sound :
      (now : ℕ) (short_code payload : String) (offer : HandshakeOffer)
      → read_payload prim texts now short_code payload ≡ ok offer
      → (offer.short_code ≡ short_code) × Payload now payload offer
  unfolding read_payload
  read_payload_sound now short_code payload offer h =
      let (bytes, decoded, rest) =
        >>=-eq-ok (ok_or (prim.decode_url_safe payload) undecodable_payload) _ h in
      let (read, parsed, checked) =
        >>=-eq-ok (ok_or (texts.offer_from_json bytes) unparsable_payload) _ rest in
      let (same, short, live, verified) = check_offer_sound now short_code read offer checked in
      subst (λ o. (o.short_code ≡ short_code) × Payload now payload o) same
        (
          short,
          record {
            bytes = bytes;
            decoded = ok_or-eq-ok (prim.decode_url_safe payload) undecodable_payload decoded;
            parsed = ok_or-eq-ok (texts.offer_from_json bytes) unparsable_payload parsed;
            unexpired = live;
            verified = verified;
          },
        )

  from_segments_sound :
      (now : ℕ) (segments : List String) (offer : HandshakeOffer)
      → from_segments prim texts now segments ≡ ok offer
      → (payload : String) × (segments ≡ "v1" ∷ "pair" ∷ offer.short_code ∷ payload ∷ [])
        × Payload now payload offer
  unfolding from_segments
  from_segments_sound now [] offer h = cc
  from_segments_sound now (_ ∷ []) offer h = cc
  from_segments_sound now (_ ∷ _ ∷ []) offer h = cc
  from_segments_sound now (_ ∷ _ ∷ _ ∷ []) offer h = cc
  from_segments_sound now (a ∷ b ∷ short_code ∷ payload ∷ []) offer h =
      elim (Bool-cases (a == "v1" && b == "pair")) [
        | inl e ↦
            let (short, shown) =
              read_payload_sound now short_code payload offer (sym (rw e refl) ∙ h) in
            (payload, rw (prefix_a_is a b e, prefix_b_is a b e, short) refl, shown)
        | inr e ↦ absurd (ground (arith, e))
      ]
  from_segments_sound now (a ∷ b ∷ short_code ∷ payload ∷ c ∷ rest) offer h =
      elim (Bool-cases (a == "v1" && b == "pair")) [
        | inl e ↦ absurd (ground (arith, e))
        | inr e ↦ absurd (ground (arith, e))
      ]

  -- A token is taken only when its segments are "v1", "pair", the short code of the offer and a
  -- payload that decodes and parses to the offer, the offer has not expired, and its signature
  -- verifies under the key of the node that it names.
  pub from_token_sound :
      (now : ℕ) (token : String) (offer : HandshakeOffer)
      → from_token prim texts now token ≡ ok offer
      → (payload : String) × (split b'.' token ≡ "v1" ∷ "pair" ∷ offer.short_code ∷ payload ∷ [])
        × Payload now payload offer
  unfolding from_token
  from_token_sound now token offer h = from_segments_sound now (split b'.' token) offer h

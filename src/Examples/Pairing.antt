-- ===== src/Examples/Pairing.antt =====
-- An offer of the node "b", with the toy keys, made at second 1000 and read at second 1600.
use flowkey.Base.{
  ℕ, zero, suc, String, some, List, [], ◌∷◌, ◌≡◌, refl, arith, codes, split, Without,
}
use flowkey.Base.Result.{ok}
use flowkey.Crypto.Session.{signing_key_from_base64}
use flowkey.Net.Auth.{identity_of}
use flowkey.Crypto.Pairing.{
  HandshakeOffer, Fresh, OfferText, fresh_offer, sign_offer, new_offer, to_token, from_token,
}
use flowkey.Crypto.Pairing.Tokens.{new_offer_returns}
use flowkey.Crypto.Pairing.Soundness.{Payload, from_token_sound}
use flowkey.Examples.Auth.{toy, seed, tally, encode, peer_b, pair_b}

tally_dotless : (n : ℕ) (s : String) → Without b'.' s → Without b'.' (tally n s)
tally_dotless zero s h = h
tally_dotless (suc n) s h = tally_dotless n s h

encode_dotless : (ns : List ℕ) → Without b'.' (encode ns)
encode_dotless [] = refl
encode_dotless (n ∷ ns) = tally_dotless n (encode ns) (encode_dotless ns)

abbrev fresh : Fresh
fresh = record { code_fragment = "ABCDEFGH"; nonce_fragment = "n"; now = 1000 }

-- Texts that are all read as the given offer.
abbrev texts_of : HandshakeOffer → OfferText
texts_of offer = record {
  unsigned_to_json = λ u. codes u.short_code;
  offer_to_json = λ o. codes o.short_code;
  offer_from_json = λ _. some offer;
  to_uppercase = λ s. s;
}

abbrev unsigned_b : HandshakeOffer
unsigned_b = record {
  version = 1;
  short_code = "ABCDEFGH";
  node = identity_of peer_b;
  expires_at_epoch_secs = 1600;
  nonce = "n";
  signature = "";
}

abbrev offer_b : HandshakeOffer
offer_b =
    sign_offer toy (texts_of unsigned_b)
      (fresh_offer toy (texts_of unsigned_b) fresh (identity_of peer_b)) (seed 50)

abbrev texts : OfferText
texts = texts_of offer_b

made_b : new_offer toy texts fresh (identity_of peer_b) "2" ≡ ok offer_b
unfolding new_offer signing_key_from_base64
made_b = refl

new_offer_returns_example : from_token toy texts 1600 (to_token toy texts offer_b) ≡ ok offer_b
new_offer_returns_example =
    new_offer_returns toy texts fresh "2" (identity_of peer_b) offer_b 1600 pair_b made_b refl
      encode_dotless refl (omega arith) (omega arith)

from_token_sound_example :
    (payload : String) × (split b'.' (to_token toy texts offer_b)
      ≡ "v1" ∷ "pair" ∷ "ABCDEFGH" ∷ payload ∷ [])
    × Payload toy texts 1600 payload offer_b
from_token_sound_example = from_token_sound toy texts 1600 (to_token toy texts offer_b) offer_b (
    new_offer_returns toy texts fresh "2" (identity_of peer_b) offer_b 1600 pair_b made_b refl
      encode_dotless refl (omega arith) (omega arith))

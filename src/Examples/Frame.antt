-- ===== src/Examples/Frame.antt =====
-- A codec that writes a heartbeat as no bytes and every other message as one.
use flowkey.Base.{ℕ, some, List, [], ◌∷◌, ◌++◌, ◌≡◌, refl, Option}
use flowkey.Base.Result.{ok}
use flowkey.Net.Message.{Message, heartbeat, switch_release}
use flowkey.Net.Frame.{Codec, message_type, to_be_bytes, write_message, read_message_metered}
use flowkey.Net.Frame.RoundTrip.{read_message-write_message}

abbrev encode : Message → List ℕ
encode heartbeat = []
encode _ = 7 ∷ []

abbrev decode : List ℕ → Option Message
decode [] = some heartbeat
decode _ = some (switch_release "r")

abbrev tiny : Codec
tiny = record { serialize = encode; deserialize = decode }

read_message-write_message_example :
    read_message_metered tiny ((0 ∷ 0 ∷ 0 ∷ 1 ∷ 7 ∷ 7 ∷ []) ++ (1 ∷ 2 ∷ []))
    ≡ ok ((switch_release "r", 6), 1 ∷ 2 ∷ [])
read_message-write_message_example =
    read_message-write_message tiny (switch_release "r") (0 ∷ 0 ∷ 0 ∷ 1 ∷ 7 ∷ 7 ∷ []) (1 ∷ 2 ∷ []) 6
      refl (unfold write_message to_be_bytes message_type in refl)

-- ===== src/Examples/Recovery.antt =====
-- Keys and buttons that were held, and the delays of a reconnection.
use flowkey.Base.{String, false, one_if, true, false, List, [], ◌∷◌, ◌≡◌}
use flowkey.Base.Result.{Result, err}
use flowkey.Input.Event.{no_modifiers, left, InputEvent, key_down, key_up, mouse_button_down}
use flowkey.Input.KeyCode.{control}
use flowkey.Core.Recovery.{key, button, release_all, HeldKeyTracker, no_held}
use flowkey.Core.Recovery.Held.{observe_all, is_down}
use flowkey.Core.Recovery.Told.{recorder, releases, release_all-releases}

-- A shift key, a letter and a mouse button went down, and the letter up again.
abbrev pressed_keys : List InputEvent
pressed_keys =
    key_down "ShiftLeft" no_modifiers 1
    ∷ key_down "KeyA" no_modifiers 2
    ∷ mouse_button_down left no_modifiers 3
    ∷ key_up "KeyA" no_modifiers 4
    ∷ []

abbrev refuses : InputEvent → Result String (Unit {0})
refuses e = err "refused"

release_all-releases_example :
    let (t, log, counts) = release_all (recorder refuses) (observe_all pressed_keys no_held) [] in
    (releases (button left) log ≡ one_if (is_down (button left) pressed_keys false)) × (t ≡ no_held)
release_all-releases_example = release_all-releases refuses (button left) pressed_keys

-- The shift key, a mouse button and then the control key are held.
abbrev held : HeldKeyTracker
held = record {
  held_inputs = key "ShiftLeft" ∷ button left ∷ key "ControlLeft" ∷ [];
  modifiers = record { shift = true; control = true; alt = false; meta = false };
}

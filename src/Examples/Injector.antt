-- ===== src/Examples/Injector.antt =====
-- The injector over a keyboard that takes every call.
use flowkey.Base.{String, Bool, true, false, some, [], ◌≡◌, refl, arith, if◌then◌else◌}
use flowkey.Base.Assoc.{lookup}
use flowkey.Base.Result.{Result, ok, err}
use flowkey.Input.Event.{no_modifiers, InputEvent, key_down}
use flowkey.Input.KeyCode.{parse_key_code, modifier_from_mask, code_to_character}
use flowkey.Input.Injector.Keys.{Key, unicode, Button}
use flowkey.Input.Injector.Enigo.{EnigoApi, key_same, button_same, is_press}
use flowkey.Input.Injector.{
  NativeInputSink, handle_input_event, release_all_pressed, call, set_modifier, sync_modifier,
  sync_modifiers, apply_key, key_action, inject, release_keys, release_buttons, release_modifier,
  release_modifiers,
}
use flowkey.Input.Injector.Holds.{Agrees, handle-Agrees}
use flowkey.Input.Injector.Refines.{after_event, handle_refines}
use flowkey.Input.Injector.Lifts.{release_all_lifts}

-- What is down.
abbrev Board : Type 0
Board = (Key → Bool) × (Button → Bool)

never : {m : String} → ◌≡◌ {A = Result String (Unit {0})} (ok tt) (err m) → ⊥
never h = cc

abbrev board : EnigoApi Board
board = record {
  key = λ k way e. ((λ q. if key_same k q then is_press way else e.0 q, e.1), ok tt);
  button = λ b way e. ((e.0, λ q. if button_same b q then is_press way else e.1 q), ok tt);
  scroll = λ n axis e. (e, ok tt);
  move_mouse = λ dx dy e. (e, ok tt);
  key_held = λ e. e.0;
  button_held = λ e. e.1;
  key-taken = λ k way e asked h. refl;
  key-refused = λ k way e asked m h. absurd (never h);
  key-buttons = λ k way e asked. refl;
  button-taken = λ b way e asked h. refl;
  button-refused = λ b way e asked m h. absurd (never h);
  button-keys = λ b way e asked. refl;
  scroll-keys = λ n axis e asked. refl;
  scroll-buttons = λ n axis e asked. refl;
  move-keys = λ dx dy e asked. refl;
  move-buttons = λ dx dy e asked. refl;
}

abbrev fresh : NativeInputSink Board
fresh = record {
  enigo = (λ k. false, λ b. false);
  pressed_keys = [];
  pressed_buttons = [];
  current_modifiers = no_modifiers;
  loopback = some [];
}

fresh-Agrees : Agrees board fresh
unfolding modifier_from_mask
fresh-Agrees = (λ k. ground arith, λ b. refl)

-- A capital A.
abbrev press : InputEvent
press = key_down "KeyA" (record no_modifiers { shift = true }) 1

abbrev typed : NativeInputSink Board
typed = (handle_input_event board press fresh).0

handle-Agrees_example : Agrees board typed
handle-Agrees_example = handle-Agrees board press fresh fresh-Agrees

press_taken : (handle_input_event board press fresh).1 ≡ ok tt
unfolding handle_input_event inject sync_modifiers sync_modifier set_modifier call key_action
    apply_key modifier_from_mask parse_key_code lookup code_to_character
press_taken = refl

handle_refines_example :
    board.key_held typed.enigo (unicode b'a')
    ≡ after_event press (board.key_held fresh.enigo) (unicode b'a')
handle_refines_example = handle_refines board press fresh fresh-Agrees press_taken (unicode b'a')

release_taken : (release_all_pressed board typed).1 ≡ ok tt
unfolding release_all_pressed release_keys release_buttons release_modifiers release_modifier
    handle_input_event inject sync_modifiers sync_modifier set_modifier call key_action apply_key
    modifier_from_mask parse_key_code lookup code_to_character
release_taken = refl

release_all_lifts_example :
    let q = (release_all_pressed board typed).0 in
    ((k : Key) → board.key_held q.enigo k ≡ false)
    × ((b : Button) → board.button_held q.enigo b ≡ false)
    × (q.pressed_keys ≡ [])
    × (q.pressed_buttons ≡ [])
    × (q.current_modifiers ≡ no_modifiers)
release_all_lifts_example = release_all_lifts board typed handle-Agrees_example release_taken

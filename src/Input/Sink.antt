-- ===== src/Input/Sink.antt =====
-- crates/flowkey-input/src/lib.rs: the trait `InputEventSink`, which the injector of each platform
-- implements. A sink's state is a value; an error is its message.
use flowkey.Base.{String}
use flowkey.Base.Result.{Result}
use flowkey.Input.Event.{InputEvent}

pub record InputEventSink (S : Type 0) : Type 0 where
  pub handle : InputEvent → S → S × Result String (Unit {0})
  pub release_all : S → S × Result String (Unit {0})

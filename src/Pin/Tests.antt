-- ===== src/Pin/Tests.antt =====
-- oteltrace/pin.py at a class with a pin and two of its instances, and the theorems applied to them.
use opentelemetry_auto_instr.Common.{
  ℕ, ◌≡◌, refl, ◌==◌, ◌||◌, true, some, none, [], ◌∷◌, if◌then◌else◌,
}
use opentelemetry_auto_instr.Pin.{
  Pins, PinArgs, service_key, found, first_attached, get_from, find, override, remove_from,
  own_copy, clone, new_pin, onto,
}
use opentelemetry_auto_instr.Pin.Own.{Owned, get_from-Owned}
use opentelemetry_auto_instr.Pin.Overriding.{Overridden, override-Overridden}

-- object 7 is the class of 1 and 2
abbrev start : Pins
start = record {
  pins = λ r. record {
    app = some "db";
    app_type = none;
    tags = some (("env", "dev") ∷ []);
    tracer = 4;
    target = some 7;
    config = 0;
  };
  next_pin = 1;
  configs = λ r. (service_key, some "mysql") ∷ [];
  next_config = 1;
  attached = λ o. if o == 7 then some 0 else none;
  classes = λ o. if o == 1 || o == 2 then 7 ∷ [] else [];
  is_frozen = λ o. o == 3;
  is_truthy = λ o. true;
  default_tracer = 9;
}

abbrev args : PinArgs
args = record {
  service = some "user-db";
  app = some "";
  app_type = none;
  tags = none;
  tracer = none;
}

get_from-Owned_example :
    (q : ℕ) × ((get_from 1 start).0 ≡ some q) × Owned 1 0 start q (get_from 1 start).1
unfolding found first_attached
get_from-Owned_example = get_from-Owned 1 0 start refl refl

override-Overridden_example : Overridden 1 args 0 start (override 1 args start)
unfolding found first_attached
override-Overridden_example = override-Overridden 1 0 args start refl refl refl

-- the second instance still inherits the pin of the class
other_instance : found (override 1 args start) 2 ≡ some 0
unfolding override found first_attached get_from own_copy clone new_pin onto
other_instance = refl

found_second : (find (8 ∷ 2 ∷ []) start).0 ≡ some 1
unfolding find get_from found first_attached own_copy
found_second = refl

class_keeps : (remove_from 1 start).attached 7 ≡ some 0
unfolding remove_from get_from found first_attached own_copy clone onto
class_keeps = refl

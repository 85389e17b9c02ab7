-- ===== src/Pin.antt =====
-- oteltrace/pin.py: the pins that hold the tracing settings of objects. Pins, their configurations and
-- the objects that carry them are numbers. The two names of the attribute, for proxies and for other
-- objects, are one slot of an object; objects that answer for themselves, by `__getddpin__` and
-- `__setddpin__`, are left out.
pub mod Own
pub mod Overriding
mod Tests
use opentelemetry_auto_instr.Common.{
  ℕ, suc, ◌==◌, Bool, true, false, not, Option, none, some, String, List, [], ◌∷◌, Dict, lookup,
  insert, str_eq, if◌then◌else◌,
}
use opentelemetry_auto_instr.World.{update}

-- `class Pin`; a tracer is a number, and `config` is a reference to the dict of the configuration, in
-- which the service stands.
pub record Pin : Type 0 where
  pub app : Option String
  pub app_type : Option String
  pub tags : Option (Dict String)
  pub tracer : ℕ
  pub target : Option ℕ
  pub config : ℕ

-- The pins and the objects. An object has a pin of its own, or inherits that of the first of its
-- classes that has one; `is_frozen` is whether an attribute cannot be set on it or deleted, and
-- `is_truthy` whether it counts as true.
pub record Pins : Type 0 where
  pub pins : ℕ → Pin
  pub next_pin : ℕ
  pub configs : ℕ → Dict (Option String)
  pub next_config : ℕ
  pub attached : ℕ → Option ℕ
  pub classes : ℕ → List ℕ
  pub is_frozen : ℕ → Bool
  pub is_truthy : ℕ → Bool
  pub default_tracer : ℕ

-- The arguments of `Pin(...)`, `clone` and `override`.
pub record PinArgs : Type 0 where
  pub service : Option String
  pub app : Option String
  pub app_type : Option String
  pub tags : Option (Dict String)
  pub tracer : Option ℕ

abbrev pub service_key : String
service_key = "service_name"

abbrev pub or_else : Option String → Option String → Option String
or_else none other = other
or_else (some s) other = if str_eq s "" then other else some s

abbrev pub or_tracer : Option ℕ → ℕ → ℕ
or_tracer none other = other
or_tracer (some t) other = t

-- `pin.service`; every pin has the key
abbrev pub joined : Option (Option String) → Option String
joined none = none
joined (some s) = s

unfoldable pub service : Pins → Pin → Option String
service s pin = joined (lookup service_key (s.configs pin.config))

-- `Pin(...)` with a configuration dict of its own, which is changed: it stands at a new number.
unfoldable pub new_pin : PinArgs → Dict (Option String) → Pins → ℕ × Pins
new_pin args config s = (
  s.next_pin,
  record s {
    pins = update s.pins s.next_pin (record {
      app = args.app;
      app_type = args.app_type;
      tags = args.tags;
      tracer = or_tracer args.tracer s.default_tracer;
      target = none;
      config = s.next_config;
    });
    next_pin = suc s.next_pin;
    configs = update s.configs s.next_config (insert service_key args.service config);
    next_config = suc s.next_config;
  },
)

-- the tags of a clone: those given, or else a copy
abbrev pub or_tags : Option (Dict String) → Option (Dict String) → Option (Dict String)
or_tags none none = none
or_tags none (some []) = none
or_tags none (some (t ∷ ts)) = some (t ∷ ts)
or_tags (some (t ∷ ts)) tags = some (t ∷ ts)
or_tags (some []) none = some []
or_tags (some []) (some []) = some []
or_tags (some []) (some (t ∷ ts)) = some (t ∷ ts)

-- `Pin.clone`
unfoldable pub clone : PinArgs → ℕ → Pins → ℕ × Pins
unfolding new_pin service
clone args p s =
    let pin = s.pins p in
    new_pin
      (record {
        service = or_else args.service (service s pin);
        app = or_else args.app pin.app;
        app_type = or_else args.app_type pin.app_type;
        tags = or_tags args.tags pin.tags;
        tracer = some (or_tracer args.tracer pin.tracer);
      })
      (s.configs pin.config) s

abbrev pub no_args : PinArgs
no_args = record { service = none; app = none; app_type = none; tags = none; tracer = none }

-- `Pin.onto`: the target is set in any case; an attribute error is caught.
unfoldable pub onto : ℕ → ℕ → Pins → Pins
onto p obj s =
    let aimed = record s { pins = update s.pins p (record (s.pins p) { target = some obj }) } in
    if s.is_frozen obj then aimed else record aimed { attached = update s.attached obj (some p) }

-- the first pin that stands on one of the objects
unfoldable pub first_attached : (ℕ → Option ℕ) → List ℕ → Option ℕ
first_attached attached [] = none
first_attached attached (obj ∷ objs) = elim (attached obj) [
  | some p ↦ some p
  | none ↦ first_attached attached objs
]

-- `getattr(obj, pin_name, None)`
unfoldable pub found : Pins → ℕ → Option ℕ
unfolding first_attached
found s obj = first_attached s.attached (obj ∷ s.classes obj)

abbrev pub is_target : ℕ → Option ℕ → Bool
is_target obj none = false
is_target obj (some t) = t == obj

-- the copy of a pin for an object
unfoldable pub own_copy : ℕ → ℕ → Pins → Option ℕ × Pins
unfolding clone onto
own_copy p obj s = let (q, s') = clone no_args p s in (some q, onto q obj s')

abbrev pub get_found : ℕ → Option ℕ → Pins → Option ℕ × Pins
get_found obj none s = (none, s)
get_found obj (some p) s = if is_target obj (s.pins p).target then (some p, s) else own_copy p obj s

-- `Pin.get_from`: a pin that is inherited, or was put onto another object, is copied.
unfoldable pub get_from : ℕ → Pins → Option ℕ × Pins
unfolding found
get_from obj s = get_found obj (found s obj) s

-- `Pin._find`
pub find : List ℕ → Pins → Option ℕ × Pins
unfolding get_from
find [] s = (none, s)
find (obj ∷ objs) s =
    let (o, s') = get_from obj s in
    let rest = find objs s' in elim o [ some p ↦ (some p, s') | none ↦ rest ]

-- the pin to be cloned by `override`: a new one where there is none
abbrev pub or_new : Option String → Option ℕ × Pins → ℕ × Pins
or_new name (some p, s) = (p, s)
or_new name (none, s) = new_pin (record no_args { service = name }) [] s

-- `Pin.override`
pub override : ℕ → PinArgs → Pins → Pins
override obj args s =
    if not (s.is_truthy obj)
    then s
    else (let (p, s₁) = or_new args.service (get_from obj s) in
        let (q, s₂) = clone args p s₁ in onto q obj s₂)

abbrev pub removed : ℕ → Option ℕ × Pins → Pins
removed obj (none, s) = s
removed obj (some p, s) =
    if s.is_frozen obj then s else record s { attached = update s.attached obj none }

-- `Pin.remove_from`, which makes a copy of an inherited pin and removes that
pub remove_from : ℕ → Pins → Pins
unfolding get_from
remove_from obj s = removed obj (get_from obj s)

abbrev pub config_of : Option ℕ × Pins → Dict (Option String)
config_of (none, s) = []
config_of (some p, s) = s.configs (s.pins p).config

-- `Config.get_from`, what it returns
pub get_config : ℕ → Pins → Dict (Option String)
unfolding get_from
get_config obj s = config_of (get_from obj s)

-- `Pin.__setattr__`: whether it raises, for a pin that is initialized or not
pub cannot_set : Bool → String → Bool
cannot_set is_initialized name = if is_initialized then not (str_eq name "_target") else false

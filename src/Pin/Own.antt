-- ===== src/Pin/Own.antt =====
-- oteltrace/pin.py: the pin that `get_from` finds for an object.
use opentelemetry_auto_instr.Common.{
  ℕ, ◌≡◌, ◌≢◌, refl, ◌∙◌, ap, true, false, Option, none, some, String, [], ◌∷◌, Dict, ◌<◌, ◌≤◌,
  arith, Bool-cases, inl, inr, lookup, lookup-insert, insert,
}
use opentelemetry_auto_instr.World.{update, update_self, update_other}
use opentelemetry_auto_instr.Pin.{
  Pin, PinArgs, or_else, or_tracer, Pins, service, service_key, joined, new_pin, clone, no_args,
  onto, found, first_attached, own_copy, get_from, is_target, or_tags,
}

-- no tags and an empty dict of tags are the same
abbrev pub filled : Option (Dict String) → Dict String
filled none = []
filled (some tags) = tags

-- The pin that stands at `q` after a step has the settings that the one at `p` had before it.
pub record SameSettings (before : Pins) (p : ℕ) (after : Pins) (q : ℕ) : Type 0 where
  pub service : service after (after.pins q) ≡ service before (before.pins p)
  pub app : (after.pins q).app ≡ (before.pins p).app
  pub app_type : (after.pins q).app_type ≡ (before.pins p).app_type
  pub tags : filled (after.pins q).tags ≡ filled (before.pins p).tags
  pub tracer : (after.pins q).tracer ≡ (before.pins p).tracer

-- A step that concerns one object: the pins and the configurations that were there are unchanged, and
-- so is what the other objects have.
pub record Only (obj : ℕ) (before after : Pins) : Type 0 where
  pub more_pins : before.next_pin ≤ after.next_pin
  pub more_configs : before.next_config ≤ after.next_config
  pub frozen : after.is_frozen ≡ before.is_frozen
  pub pins : (r : ℕ) → r < before.next_pin → after.pins r ≡ before.pins r
  pub configs : (c : ℕ) → c < before.next_config → after.configs c ≡ before.configs c
  pub others : (o : ℕ) → obj ≢ o → after.attached o ≡ before.attached o

-- What `get_from` leaves: the pin is aimed at the object, with the settings of the one that was found.
pub record Owned (obj p : ℕ) (before : Pins) (q : ℕ) (after : Pins) : Type 0 where
  pub aimed : (after.pins q).target ≡ some obj
  pub same : SameSettings before p after q
  pub only : Only obj before after
  pub again : get_from obj after ≡ (some q, after)

is_target-some : (obj : ℕ) (t : Option ℕ) → is_target obj t ≡ true → t ≡ some obj
is_target-some obj none h = grind arith
is_target-some obj (some t) h = grind arith

filled-or_tags : (t : Option (Dict String)) → filled (or_tags none t) ≡ filled t
filled-or_tags none = refl
filled-or_tags (some []) = refl
filled-or_tags (some (x ∷ xs)) = refl

-- `pin.clone(...).onto(obj)`
abbrev pub clone_onto : ℕ → PinArgs → ℕ → Pins → Pins
clone_onto obj args p s = let (q, s') = clone args p s in onto q obj s'

abbrev aim : ℕ → Pin → Pin
aim obj pin = record pin { target = some obj }

-- the pin that this makes
abbrev pub cloned : ℕ → PinArgs → ℕ → Pins → Pin
cloned obj args p s =
    let pin = s.pins p in
    record {
      app = or_else args.app pin.app;
      app_type = or_else args.app_type pin.app_type;
      tags = or_tags args.tags pin.tags;
      tracer = or_tracer args.tracer pin.tracer;
      target = some obj;
      config = s.next_config;
    }

onto-pins : (p obj : ℕ) (s : Pins) → (onto p obj s).pins ≡ update s.pins p (aim obj (s.pins p))
unfolding onto
onto-pins p obj s = elim (Bool-cases (s.is_frozen obj)) [ inl b ↦ rw b refl | inr b ↦ rw b refl ]

pub clone_onto-pin :
    (obj : ℕ) (args : PinArgs) (p : ℕ) (s : Pins)
    → (clone_onto obj args p s).pins s.next_pin ≡ cloned obj args p s
unfolding clone new_pin service
clone_onto-pin obj args p s =
    let (q, s') = clone args p s in
    ap (λ h. h s.next_pin) (onto-pins q obj s')
    ∙ update_self s'.pins s.next_pin _
    ∙ ap (aim obj) (update_self s.pins s.next_pin _)

pub clone_onto-configs :
    (obj : ℕ) (args : PinArgs) (p : ℕ) (s : Pins)
    → (clone_onto obj args p s).configs
      ≡ update s.configs s.next_config (
          insert service_key
            (or_else args.service (service s (s.pins p)))
            (s.configs (s.pins p).config))
unfolding clone new_pin onto
clone_onto-configs obj args p s = elim (Bool-cases (s.is_frozen obj)) [
  | inl b ↦ rw b refl
  | inr b ↦ rw b refl
]

pub clone_onto-service :
    (obj : ℕ) (args : PinArgs) (p : ℕ) (s : Pins)
    → let s' = clone_onto obj args p s in
      service s' (s'.pins s.next_pin) ≡ or_else args.service (service s (s.pins p))
unfolding service
clone_onto-service obj args p s =
    let s' = clone_onto obj args p s in
    ap (λ x. joined (lookup service_key (s'.configs x.config))) (clone_onto-pin obj args p s)
    ∙ ap (λ h. joined (lookup service_key (h s.next_config))) (clone_onto-configs obj args p s)
    ∙ ap (λ d. joined (lookup service_key d)) (update_self s.configs s.next_config _)
    ∙ ap joined (lookup-insert service_key service_key _ _)

pub clone_onto-attached :
    (obj : ℕ) (args : PinArgs) (p : ℕ) (s : Pins)
    → s.is_frozen obj ≡ false
    → (clone_onto obj args p s).attached ≡ update s.attached obj (some s.next_pin)
unfolding clone new_pin onto
clone_onto-attached obj args p s free = rw free refl

pub clone_onto-Only :
    (obj : ℕ) (args : PinArgs) (p : ℕ) (s : Pins) → Only obj s (clone_onto obj args p s)
unfolding clone new_pin onto
clone_onto-Only obj args p s = elim (Bool-cases (s.is_frozen obj)) [
  | inl b ↦ rw b (record {
    more_pins = omega arith;
    more_configs = omega arith;
    frozen = refl;
    pins = λ r h. ground arith;
    configs = λ c h. ground arith;
    others = λ o ne. refl;
  })
  | inr b ↦ rw b (record {
    more_pins = omega arith;
    more_configs = omega arith;
    frozen = refl;
    pins = λ r h. ground arith;
    configs = λ c h. ground arith;
    others = λ o ne. update_other s.attached obj o (some s.next_pin) ne;
  })
]

found_own : (s : Pins) (obj q : ℕ) → s.attached obj ≡ some q → found s obj ≡ some q
unfolding found first_attached
found_own s obj q e =
    ap
      (λ o. elim o as (λ x. Option ℕ) [
        | some p ↦ some p
        | none ↦ first_attached s.attached (s.classes obj)
      ])
      e

-- A pin that is found and aimed at the object is returned.
pub get_from_own :
    (obj q : ℕ) (s : Pins)
    → found s obj ≡ some q
    → (s.pins q).target ≡ some obj
    → get_from obj s ≡ (some q, s)
unfolding get_from
get_from_own obj q s e t = rw (e, t) (ground arith)

own_copy-Owned :
    (obj p : ℕ) (s : Pins)
    → s.is_frozen obj ≡ false
    → Owned obj p s s.next_pin (clone_onto obj no_args p s)
own_copy-Owned obj p s free =
    let s' = clone_onto obj no_args p s in
    let e = clone_onto-pin obj no_args p s in
    let aimed = ap (λ x. x.target) e in
    let attached =
      ap (λ h. h obj) (clone_onto-attached obj no_args p s free)
      ∙ update_self s.attached obj (some s.next_pin) in
    record {
      aimed = aimed;
      same = record {
        service = clone_onto-service obj no_args p s;
        app = ap (λ x. x.app) e;
        app_type = ap (λ x. x.app_type) e;
        tags = ap (λ x. filled x.tags) e ∙ filled-or_tags (s.pins p).tags;
        tracer = ap (λ x. x.tracer) e;
      };
      only = clone_onto-Only obj no_args p s;
      again = get_from_own obj s.next_pin s' (found_own s' obj s.next_pin attached) aimed;
    }

-- `get_from`, for an object whose attributes can be set and that has a pin or inherits one: it returns a
-- pin that is aimed at this object, with the service, the application, the tags and the tracer of the pin
-- that was found. Every pin that was there and its configuration are unchanged, as is what the other
-- objects have, so that a class keeps its pin; and to ask again returns the same pin and changes nothing.
pub get_from-Owned :
    (obj p : ℕ) (s : Pins)
    → s.is_frozen obj ≡ false
    → found s obj ≡ some p
    → (q : ℕ) × ((get_from obj s).0 ≡ some q) × Owned obj p s q (get_from obj s).1
unfolding get_from own_copy
get_from-Owned obj p s free e = rw e (elim (Bool-cases (is_target obj (s.pins p).target)) [
  | inl own ↦ rw own (
    p,
    refl,
    record {
      aimed = is_target-some obj (s.pins p).target own;
      same = record { service = refl; app = refl; app_type = refl; tags = refl; tracer = refl };
      only = record {
        more_pins = omega arith;
        more_configs = omega arith;
        frozen = refl;
        pins = λ r h. refl;
        configs = λ c h. refl;
        others = λ o ne. refl;
      };
      again = get_from_own obj p s e (is_target-some obj (s.pins p).target own);
    },
  )
  | inr other ↦ rw other (s.next_pin, refl, own_copy-Owned obj p s free)
])

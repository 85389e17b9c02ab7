-- ===== src/Pin/Overriding.antt =====
-- oteltrace/pin.py: what `override` changes.
use opentelemetry_auto_instr.Common.{
  ℕ, ◌≡◌, refl, ◌∙◌, ap, true, false, Option, none, some, String, [], ◌∷◌, Dict, arith,
}
use opentelemetry_auto_instr.World.{update_self}
use opentelemetry_auto_instr.Pin.{
  Pins, PinArgs, or_else, or_tags, or_tracer, service, found, get_from, override,
}
use opentelemetry_auto_instr.Pin.Own.{
  filled, Only, get_from-Owned, clone_onto, clone_onto-pin, clone_onto-service, clone_onto-attached,
  clone_onto-Only,
}

-- the tags that are given, or those that were there
abbrev pub or_filled : Option (Dict String) → Dict String → Dict String
or_filled none tags = tags
or_filled (some []) tags = tags
or_filled (some (t ∷ ts)) tags = t ∷ ts

filled-or_tags :
    (given old : Option (Dict String)) → filled (or_tags given old) ≡ or_filled given (filled old)
filled-or_tags none none = refl
filled-or_tags none (some []) = refl
filled-or_tags none (some (t ∷ ts)) = refl
filled-or_tags (some []) none = refl
filled-or_tags (some []) (some []) = refl
filled-or_tags (some []) (some (t ∷ ts)) = refl
filled-or_tags (some (t ∷ ts)) old = refl

-- The pin of an object after it was overridden, where the pin at `p` was found before.
pub record Overridden (obj : ℕ) (args : PinArgs) (p : ℕ) (before after : Pins) : Type 0 where
  pub q : ℕ
  pub attached : after.attached obj ≡ some q
  pub aimed : (after.pins q).target ≡ some obj
  pub service : service after (after.pins q) ≡ or_else args.service (service before (before.pins p))
  pub app : (after.pins q).app ≡ or_else args.app (before.pins p).app
  pub app_type : (after.pins q).app_type ≡ or_else args.app_type (before.pins p).app_type
  pub tags : filled (after.pins q).tags ≡ or_filled args.tags (filled (before.pins p).tags)
  pub tracer : (after.pins q).tracer ≡ or_tracer args.tracer (before.pins p).tracer
  pub only : Only obj before after

Only-trans : (obj : ℕ) (a b c : Pins) → Only obj a b → Only obj b c → Only obj a c
Only-trans obj a b c h k =
    let more_pins = h.more_pins in
    let more_configs = h.more_configs in
    let more_pins' = k.more_pins in
    let more_configs' = k.more_configs in
    record {
      more_pins = omega arith;
      more_configs = omega arith;
      frozen = k.frozen ∙ h.frozen;
      pins = λ r small. k.pins r (omega arith) ∙ h.pins r small;
      configs = λ r small. k.configs r (omega arith) ∙ h.configs r small;
      others = λ o ne. k.others o ne ∙ h.others o ne;
    }

-- `override`, for an object that counts as true, whose attributes can be set, and that has or inherits a
-- pin: the object itself then has a pin with what is given and not empty, and for all else the service,
-- the application, the tags and the tracer of the pin that was found. The pins that were there and their
-- configurations, and what the other objects have, are unchanged.
pub override-Overridden :
    (obj p : ℕ) (args : PinArgs) (s : Pins)
    → s.is_truthy obj ≡ true
    → s.is_frozen obj ≡ false
    → found s obj ≡ some p
    → Overridden obj args p s (override obj args s)
unfolding override
override-Overridden obj p args s truthy free e =
    let (q, f, owned) = get_from-Owned obj p s free e in
    let s₁ = (get_from obj s).1 in
    let same = owned.same in
    let after = clone_onto obj args q s₁ in
    let pin = clone_onto-pin obj args q s₁ in
    let free₁ = ap (λ h. h obj) owned.only.frozen ∙ free in
    rw (truthy, f)
      (record {
        q = s₁.next_pin;
        attached =
            ap (λ h. h obj) (clone_onto-attached obj args q s₁ free₁)
            ∙ update_self s₁.attached obj (some s₁.next_pin);
        aimed = ap (λ x. x.target) pin;
        service = clone_onto-service obj args q s₁ ∙ ap (or_else args.service) same.service;
        app = ap (λ x. x.app) pin ∙ ap (or_else args.app) same.app;
        app_type = ap (λ x. x.app_type) pin ∙ ap (or_else args.app_type) same.app_type;
        tags =
            ap (λ x. filled x.tags) pin
            ∙ filled-or_tags args.tags (s₁.pins q).tags
            ∙ ap (or_filled args.tags) same.tags;
        tracer = ap (λ x. x.tracer) pin ∙ ap (or_tracer args.tracer) same.tracer;
        only = Only-trans obj s s₁ after owned.only (clone_onto-Only obj args q s₁);
      })

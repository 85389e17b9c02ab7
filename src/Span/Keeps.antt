-- ===== src/Span/Keeps.antt =====
-- oteltrace/span.py: tags and metrics leave the rest of a span alone.
use opentelemetry_auto_instr.Common.{
  ℕ, ℤ, ◌≡◌, refl, ap, Option, none, some, String, [], ◌∷◌, arith, Dict, member, str_eq, Bool-cases,
  inl, inr, ◌∙◌, contains, modify,
}
use opentelemetry_auto_instr.Value.{Number, Value, text, to_float, stringify, numeric_tags}
use opentelemetry_auto_instr.World.{Span, World, on_span}
use opentelemetry_auto_instr.World.Keeps.{
  identity, Keeps, Keeps-refl, on_span-Keeps, on_context-Keeps, Kept, Kept-pure, Kept-bind,
  Kept-modify,
}
use opentelemetry_auto_instr.Span.{
  put_metric, with_metric, set_metric, with_meta, put_meta, set_priority_of, set_priority, set_tag,
  set_tags, remove_tag, ExcInfo, set_exc_info, remove_exc_info, error_msg, error_type, error_stack,
}

-- A span but for its metrics.
abbrev pub unmeasured : Span → Span
unmeasured s = record s { metrics = [] }

-- A span but for its tags and metrics.
abbrev pub untagged : Span → Span
untagged s = record s { meta = []; metrics = [] }

unmeasured-with_metric :
    (key : String) (o : Option Number) (span : Span)
    → unmeasured (with_metric key o span) ≡ unmeasured span
unfolding put_metric
unmeasured-with_metric key none span = refl
unmeasured-with_metric key (some n) span = ground arith

pub unmeasured-set_metric :
    (key : String) (value : Value) (span : Span)
    → unmeasured (set_metric key value span) ≡ unmeasured span
unfolding set_metric
unmeasured-set_metric key value span = unmeasured-with_metric key (to_float value) span

pub identity-set_metric :
    (key : String) (value : Value) (span : Span)
    → identity (set_metric key value span) ≡ identity span
identity-set_metric key value span = ap identity (unmeasured-set_metric key value span)

untagged-with_meta :
    (key : String) (o : Option String) (span : Span)
    → untagged (with_meta key o span) ≡ untagged span
untagged-with_meta key none span = refl
untagged-with_meta key (some s) span = refl

pub untagged-put_meta :
    (key : String) (value : Value) (span : Span)
    → untagged (put_meta key value span) ≡ untagged span
unfolding put_meta
untagged-put_meta key value span = untagged-with_meta key (stringify value) span

pub identity-put_meta :
    (key : String) (value : Value) (span : Span)
    → identity (put_meta key value span) ≡ identity span
identity-put_meta key value span = ap identity (untagged-put_meta key value span)

set_priority_of-Keeps :
    (c : Option ℕ) (priority : ℤ) (w : World) → Keeps w (set_priority_of c priority w).1
unfolding set_priority_of
set_priority_of-Keeps none priority w = Keeps-refl w
set_priority_of-Keeps (some c) priority w = on_context-Keeps c _ w refl

set_tag-Keeps :
    (r : ℕ) (key : String) (value : Value) (w : World) → Keeps w (set_tag r key value w).1
unfolding set_tag set_priority
set_tag-Keeps r key value w = elim (Bool-cases (member key numeric_tags)) [
  | inl a ↦ rw a (on_span-Keeps r _ w (identity-set_metric key value (w.spans r)))
  | inr a ↦ rw a (elim (Bool-cases (str_eq key "manual.keep")) [
    | inl b ↦ rw b (set_priority_of-Keeps (w.spans r).context _ w)
    | inr b ↦ rw b (elim (Bool-cases (str_eq key "manual.drop")) [
      | inl d ↦ rw d (set_priority_of-Keeps (w.spans r).context _ w)
      | inr d ↦ rw d (on_span-Keeps r _ w (identity-put_meta key value (w.spans r)))
    ])
  ])
]

pub set_tag-Kept : (r : ℕ) (key : String) (value : Value) → Kept (set_tag r key value)
set_tag-Kept r key value = record { at = set_tag-Keeps r key value }

pub set_tags-Kept : (r : ℕ) (tags : Dict Value) → Kept (set_tags r tags)
unfolding set_tags
set_tags-Kept r [] = Kept-pure tt
set_tags-Kept r ((key, value) ∷ tags) =
    Kept-bind (set_tag r key value) _ (set_tag-Kept r key value) (λ _. set_tags-Kept r tags)

pub set_exc_info-Kept : (r : ℕ) (exc : ExcInfo) → Kept (set_exc_info r exc)
unfolding set_exc_info
set_exc_info-Kept r exc =
    let marked : Span → Span = λ span. record span { error = 1 } in
    let kind = text exc.type_name none in
    elim (Bool-cases exc.is_set) [
      | inl given ↦ simp given (
          Kept-bind (modify (on_span r marked)) _
            (Kept-modify (on_span r marked) (λ w. on_span-Keeps r marked w refl))
            (λ _.
              Kept-bind (set_tag r error_msg exc.value) _ (set_tag-Kept r error_msg exc.value) (λ _.
                Kept-bind (set_tag r error_type kind) _ (set_tag-Kept r error_type kind)
                  (λ _. set_tag-Kept r error_stack (text exc.traceback none)))))
      | inr empty ↦ simp empty (Kept-pure tt)
    ]

identity-remove_tag : (key : String) (span : Span) → identity (remove_tag key span) ≡ identity span
unfolding remove_tag
identity-remove_tag key span = elim (Bool-cases (contains key span.meta)) [
  | inl has ↦ simp has refl
  | inr lacks ↦ simp lacks refl
]

pub identity-remove_exc_info : (span : Span) → identity (remove_exc_info span) ≡ identity span
unfolding remove_exc_info
identity-remove_exc_info span =
    identity-remove_tag _ _ ∙ identity-remove_tag _ _ ∙ identity-remove_tag _ _

-- ===== src/Context/Root.antt =====
-- oteltrace/context.py: tagging the root of a trace in `get`.
use opentelemetry_auto_instr.Common.{
  ℕ, ℤ, ◌≡◌, ◌≢◌, refl, ap, Bool, true, false, Option, none, some, String, List, [], ◌∷◌,
  if◌then◌else◌, Error, raised, Bool-cases, inl, inr, arith, ok, index_error, pure, raise, modify,
  Exec, ◌>>◌,
}
use opentelemetry_auto_instr.Value.{
  number, whole, text, sampling_priority_key, origin_key, hostname_key,
}
use opentelemetry_auto_instr.World.{Context, World}
use opentelemetry_auto_instr.World.Keeps.{
  KeepsBy, KeptBy, Keeps, identity, frame, active_of, Keeps-map, Keeps-refl, on_span-Keeps,
  Kept-pure, Kept-raise, Kept-if, Kept-modify, Kept-bind,
}
use opentelemetry_auto_instr.Span.{set_metric, set_tag}
use opentelemetry_auto_instr.Span.Keeps.{untagged, unmeasured-set_metric, untagged-put_meta}
use opentelemetry_auto_instr.Context.{tag_priority, tag_origin, tag_root}

-- A step that changes the tags and metrics of spans alone.
abbrev pub Tagged : World → World → Type 0
Tagged = KeepsBy untagged (λ c. c) (λ o. o)

abbrev TaggedBy : {A : Type 0} → Exec World A → Type 0
TaggedBy m = KeptBy untagged (λ c. c) (λ o. o) m

pub Keeps-Tagged : {w w' : World} → Tagged w w' → Keeps w w'
Keeps-Tagged k = Keeps-map identity frame active_of k

tag_priority-Keeps :
    (r : ℕ) (priority : Option ℤ) (w : World) → Tagged w (tag_priority r priority w)
unfolding tag_priority
tag_priority-Keeps r none w = Keeps-refl w
tag_priority-Keeps r (some priority) w =
    on_span-Keeps r (set_metric sampling_priority_key (number (whole priority) "")) w
      (ap untagged (unmeasured-set_metric _ _ (w.spans r)))

tag_origin-Kept : (r : ℕ) (origin : Option String) → TaggedBy (tag_origin r origin)
unfolding tag_origin set_tag
tag_origin-Kept r none = Kept-pure tt
tag_origin-Kept r (some origin) = record {
  at = λ w. on_span-Keeps r _ w (untagged-put_meta origin_key (text origin none) (w.spans r));
}

tag_host-Kept : (r : ℕ) (name : String) → TaggedBy (set_tag r hostname_key (text name none))
unfolding set_tag
tag_host-Kept r name = record {
  at = λ w. on_span-Keeps r _ w (untagged-put_meta hostname_key (text name none) (w.spans r));
}

modify_if-Keeps :
    (b : Bool) (f : World → World)
    → ((w : World) → Tagged w (f w))
    → (w : World) → Tagged w ((if b then f else λ w'. w') w)
modify_if-Keeps true f k w = k w
modify_if-Keeps false f k w = Keeps-refl w

-- Tagging the root of a trace changes tags and metrics alone, also where it raises.
pub tag_root-Tagged :
    (trace : List ℕ) (sampled : Bool) (context : Context) (w : World)
    → Tagged w (tag_root trace sampled context w).1
unfolding tag_root
tag_root-Tagged [] sampled context w =
    (Kept-if w.settings.report_hostname (raise index_error) (pure tt) (Kept-raise index_error)
        (Kept-pure tt)).at
      w
tag_root-Tagged (r ∷ trace) sampled context w =
    (Kept-bind (modify (if sampled then tag_priority r context.sampling_priority else λ w'. w')) _
        (Kept-modify _ (modify_if-Keeps sampled _ (tag_priority-Keeps r context.sampling_priority)))
        (λ _.
          Kept-bind (if sampled then tag_origin r context.otel_origin else pure tt) _
            (Kept-if sampled _ _ (tag_origin-Kept r context.otel_origin) (Kept-pure tt))
            (λ _.
              Kept-if w.settings.report_hostname _ _ (tag_host-Kept r w.settings.hostname)
                (Kept-pure tt)))).at
      w

tag_origin_ok : (r : ℕ) (origin : Option String) (w : World) → (tag_origin r origin w).0 ≡ ok tt
unfolding tag_origin set_tag
tag_origin_ok r none w = refl
tag_origin_ok r (some origin) w = refl

-- an action that never raises
abbrev Total : Exec World Unit → Type 0
Total m = (w : World) → (m w).0 ≡ ok tt

Total-if : (b : Bool) (m n : Exec World Unit) → Total m → Total n → Total (if b then m else n)
Total-if true m n f g = f
Total-if false m n f g = g

Total-bind : (m n : Exec World Unit) → Total m → Total n → Total (m >> n)
Total-bind m n f g w = rw (f w) (g (m w).1)

tag_text_ok : (r : ℕ) (name : String) → Total (set_tag r hostname_key (text name none))
unfolding set_tag
tag_text_ok r name w = refl

pub tag_root_ok :
    (trace : List ℕ) (sampled : Bool) (context : Context) (w : World)
    → trace ≢ []
    → (tag_root trace sampled context w).0 ≡ ok tt
unfolding tag_root
tag_root_ok [] sampled context w ne = absurd (ne refl)
tag_root_ok (r ∷ trace) sampled context w ne =
    let named : Exec World Unit =
      if w.settings.report_hostname
      then set_tag r hostname_key (text w.settings.hostname none)
      else pure tt in
    let from : Exec World Unit = if sampled then tag_origin r context.otel_origin else pure tt in
    Total-bind (modify (if sampled then tag_priority r context.sampling_priority else λ w'. w'))
      (from >> named) (λ w'. refl)
      (Total-bind from named
        (Total-if sampled (tag_origin r context.otel_origin) (pure tt)
          (tag_origin_ok r context.otel_origin) (λ w'. refl))
        (Total-if w.settings.report_hostname
          (set_tag r hostname_key (text w.settings.hostname none)) (pure tt)
          (tag_text_ok r w.settings.hostname) (λ w'. refl)))
      w

-- Tagging raises for a trace with no spans alone, before it changes anything.
pub tag_root_raised :
    (trace : List ℕ) (sampled : Bool) (context : Context) (w : World) (e : Error)
    → (tag_root trace sampled context w).0 ≡ raised e
    → ((tag_root trace sampled context w).1 ≡ w) × (trace ≡ [])
unfolding tag_root
tag_root_raised [] sampled context w e h = elim (Bool-cases w.settings.report_hostname) [
  | inl asked ↦ rw asked (refl, refl)
  | inr bare ↦ rw bare (refl, refl)
]
tag_root_raised (r ∷ trace) sampled context w e h =
    absurd (ground (arith, h, tag_root_ok (r ∷ trace) sampled context w (λ e'. ground arith)))

-- ===== src/World/Keeps.antt =====
-- oteltrace/span.py, context.py, tracer.py: steps that keep a part of every span, of every context and of
-- the tracer.
use opentelemetry_auto_instr.Common.{
  ℕ, ◌≡◌, refl, ◌∙◌, ap, Bool, true, false, Option, none, [], ◌==◌, ==_true, Bool-cases, inl, inr,
  if◌then◌else◌, Result, ok, raised, Error, Exec, ◌>>=◌, pure, raise, modify, continue,
}
use opentelemetry_auto_instr.Sampler.{RateByServiceSampler}
use opentelemetry_auto_instr.World.{
  Span, Context, Settings, Tracer, World, on_span, on_context, update,
}

-- A span but for its tags, metrics, error and decision, and a context but for its priority.
abbrev pub identity : Span → Span
identity s = record s { meta = []; metrics = []; error = 0; sampled = true }

abbrev pub frame : Context → Context
frame c = record c { sampling_priority = none }

-- What a world has besides spans and contexts.
pub record Others : Type 0 where
  pub service_samplers : ℕ → RateByServiceSampler
  pub next_sampler : ℕ
  pub settings : Settings
  pub tracer : Tracer

abbrev pub others : World → Others
others w = record {
  service_samplers = w.service_samplers;
  next_sampler = w.next_sampler;
  settings = w.settings;
  tracer = w.tracer;
}

-- A step from w to w' that keeps what the three functions read of every span, of every context and of
-- the others, and allocates nothing.
pub record KeepsBy {P Q R : Type 0} (p : Span → P) (q : Context → Q) (t : Others → R) (w w' : World)
    : Type 0 where
  pub spans : (r : ℕ) → p (w'.spans r) ≡ p (w.spans r)
  pub contexts : (c : ℕ) → q (w'.contexts c) ≡ q (w.contexts c)
  pub next_span : w'.next_span ≡ w.next_span
  pub next_context : w'.next_context ≡ w.next_context
  pub rest : t (others w') ≡ t (others w)

abbrev pub active_of : Others → Option ℕ
active_of o = o.tracer.active_context

abbrev pub Keeps : World → World → Type 0
Keeps = KeepsBy identity frame active_of

-- An action that keeps, from every world.
pub record KeptBy {P Q R : Type 0} (p : Span → P) (q : Context → Q) (t : Others → R) {A : Type 0}
    (m : Exec World A) : Type 0 where
  pub at : (w : World) → KeepsBy p q t w (m w).1

abbrev pub Kept : {A : Type 0} → Exec World A → Type 0
Kept m = KeptBy identity frame active_of m

-- A write to one cell of a heap keeps what the write keeps.
pub update_keeps {ℓ κ} :
    {A : Type ℓ} {B : Type κ} (f : A → B) (h : ℕ → A) (r q : ℕ) (a : A)
    → f a ≡ f (h r)
    → f (update h r a q) ≡ f (h q)
update_keeps f h r q a e = elim (Bool-cases (r == q)) [
  | inl same ↦ rw same (e ∙ ap (λ k. f (h k)) (==_true r q same))
  | inr other ↦ rw other refl
]

module _ {P Q R : Type 0} {p : Span → P} {q : Context → Q} {t : Others → R} where
  pub Keeps-refl : (w : World) → KeepsBy p q t w w
  Keeps-refl w = record {
    spans = λ r. refl;
    contexts = λ c. refl;
    next_span = refl;
    next_context = refl;
    rest = refl;
  }

  pub Keeps-trans : {u v w : World} → KeepsBy p q t u v → KeepsBy p q t v w → KeepsBy p q t u w
  Keeps-trans h k = record {
    spans = λ r. k.spans r ∙ h.spans r;
    contexts = λ c. k.contexts c ∙ h.contexts c;
    next_span = k.next_span ∙ h.next_span;
    next_context = k.next_context ∙ h.next_context;
    rest = k.rest ∙ h.rest;
  }

  pub on_span-Keeps :
      (r : ℕ) (f : Span → Span) (w : World)
      → p (f (w.spans r)) ≡ p (w.spans r)
      → KeepsBy p q t w (on_span r f w)
  unfolding on_span
  on_span-Keeps r f w e = record {
    spans = λ k. update_keeps p w.spans r k (f (w.spans r)) e;
    contexts = λ c. refl;
    next_span = refl;
    next_context = refl;
    rest = refl;
  }

  pub on_context-Keeps :
      (c : ℕ) (f : Context → Context) (w : World)
      → q (f (w.contexts c)) ≡ q (w.contexts c)
      → KeepsBy p q t w (on_context c f w)
  unfolding on_context
  on_context-Keeps c f w e = record {
    spans = λ r. refl;
    contexts = λ d. update_keeps q w.contexts c d (f (w.contexts c)) e;
    next_span = refl;
    next_context = refl;
    rest = refl;
  }

  pub on_tracer-Keeps :
      (tracer : Tracer) (w : World)
      → t (record (others w) { tracer = tracer }) ≡ t (others w)
      → KeepsBy p q t w (record w { tracer = tracer })
  on_tracer-Keeps tracer w e = record {
    spans = λ r. refl;
    contexts = λ c. refl;
    next_span = refl;
    next_context = refl;
    rest = e;
  }

  module _ {A : Type 0} where
    pub Kept-pure : (a : A) → KeptBy p q t (pure {S = World} a)
    Kept-pure a = record { at = Keeps-refl }

    pub Kept-raise : (e : Error) → KeptBy p q t (raise {S = World} {A = A} e)
    Kept-raise e = record { at = Keeps-refl }

    pub Kept-if :
        (b : Bool) (m n : Exec World A)
        → KeptBy p q t m
        → KeptBy p q t n
        → KeptBy p q t (if b then m else n)
    Kept-if true m n k l = k
    Kept-if false m n k l = l

  pub Kept-modify :
      (f : World → World) → ((w : World) → KeepsBy p q t w (f w)) → KeptBy p q t (modify f)
  Kept-modify f k = record { at = k }

  module _ {A B : Type 0} where
    Keeps-continue :
        {v : World} (r : Result A) (f : A → Exec World B) (w : World)
        → ((a : A) → KeptBy p q t (f a))
        → KeepsBy p q t v w
        → KeepsBy p q t v (continue r f w).1
    Keeps-continue (ok a) f w k h = Keeps-trans h ((k a).at w)
    Keeps-continue (raised e) f w k h = h

    pub Kept-bind :
        (m : Exec World A) (f : A → Exec World B)
        → KeptBy p q t m
        → ((a : A) → KeptBy p q t (f a))
        → KeptBy p q t (m >>= f)
    Kept-bind m f km kf = record { at = λ w. Keeps-continue (m w).0 f (m w).1 kf (km.at w) }

-- What keeps more keeps less.
module _ {P Q R P' Q' R' : Type 0} {p : Span → P} {q : Context → Q} {t : Others → R} where
  pub Keeps-map :
      (f : P → P') (g : Q → Q') (h : R → R') {w w' : World}
      → KeepsBy p q t w w'
      → KeepsBy (λ s. f (p s)) (λ c. g (q c)) (λ x. h (t x)) w w'
  Keeps-map f g h k = record {
    spans = λ r. ap f (k.spans r);
    contexts = λ c. ap g (k.contexts c);
    next_span = k.next_span;
    next_context = k.next_context;
    rest = ap h k.rest;
  }

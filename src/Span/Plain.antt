-- ===== src/Span/Plain.antt =====
-- oteltrace/span.py: tags that choose no sampling priority by hand never make `set_tag` raise, and
-- leave the sampling decision of every span alone.
use opentelemetry_auto_instr.Common.{
  ℕ, ℤ, ◌≡◌, refl, ◌∙◌, false, Option, none, some, String, [], ◌∷◌, arith, Bool-cases, inl, inr,
  Result, ok, raised, Exec, continue, Dict, All, member, str_eq, ◌>>◌,
}
use opentelemetry_auto_instr.Value.{Number, Value, to_float, stringify, numeric_tags}
use opentelemetry_auto_instr.World.{Span, World, on_span, on_context}
use opentelemetry_auto_instr.World.Keeps.{Keeps, Keeps-refl, Keeps-trans, update_keeps}
use opentelemetry_auto_instr.Span.{
  put_metric, with_metric, set_metric, with_meta, put_meta, set_priority_of, set_priority, set_tag,
  set_tags,
}
use opentelemetry_auto_instr.Span.Keeps.{set_tag-Kept}
use opentelemetry_auto_instr.Span.Tags.{is_manual, set_tag_raises}

abbrev pub Plain : Dict Value → Type 0
Plain tags = All (λ entry. is_manual entry.0 ≡ false) tags

-- An action that returns, keeps what tags keep, and leaves the decisions alone.
pub record Settled (x : Result (Unit {0}) × World) (w : World) : Type 0 where
  pub returns : x.0 ≡ ok tt
  pub keeps : Keeps w x.1
  pub sampled : (q : ℕ) → (x.1.spans q).sampled ≡ (w.spans q).sampled

pub Settled-pure : (w : World) → Settled (ok tt, w) w
Settled-pure w = record { returns = refl; keeps = Keeps-refl w; sampled = λ q. refl }

pub Settled-bind :
    (m n : Exec World Unit) (w : World)
    → Settled (m w) w
    → Settled (n (m w).1) (m w).1
    → Settled ((m >> n) w) w
Settled-bind m n w f g = both (m w).0 (m w).1 f.returns f.keeps f.sampled g
  where
    both :
        (res : Result Unit) (v : World)
        → res ≡ ok tt
        → Keeps w v
        → ((q : ℕ) → (v.spans q).sampled ≡ (w.spans q).sampled)
        → Settled (n v) v
        → Settled (continue res (λ _. n) v) w
    both (ok u) v e k s h = record {
      returns = h.returns;
      keeps = Keeps-trans k h.keeps;
      sampled = λ q. h.sampled q ∙ s q;
    }
    both (raised x) v e k s h = absurd (ground (arith, e))

sampled-with_metric :
    (key : String) (o : Option Number) (span : Span)
    → (with_metric key o span).sampled ≡ span.sampled
unfolding put_metric
sampled-with_metric key none span = refl
sampled-with_metric key (some n) span = ground arith

pub sampled-set_metric :
    (key : String) (value : Value) (span : Span)
    → (set_metric key value span).sampled ≡ span.sampled
unfolding set_metric
sampled-set_metric key value span = sampled-with_metric key (to_float value) span

sampled-with_meta :
    (key : String) (o : Option String) (span : Span) → (with_meta key o span).sampled ≡ span.sampled
sampled-with_meta key none span = refl
sampled-with_meta key (some s) span = refl

sampled-set_priority_of :
    (c : Option ℕ) (priority : ℤ) (w : World) (q : ℕ)
    → ((set_priority_of c priority w).1.spans q).sampled ≡ (w.spans q).sampled
unfolding set_priority_of on_context
sampled-set_priority_of none priority w q = refl
sampled-set_priority_of (some c) priority w q = refl

sampled-set_tag :
    (r : ℕ) (key : String) (value : Value) (w : World) (q : ℕ)
    → ((set_tag r key value w).1.spans q).sampled ≡ (w.spans q).sampled
unfolding set_tag set_priority set_metric put_meta on_span
sampled-set_tag r key value w q = elim (Bool-cases (member key numeric_tags)) [
  | inl a ↦ rw a (
      update_keeps (λ s. s.sampled) w.spans r q _
        (sampled-with_metric key (to_float value) (w.spans r)))
  | inr a ↦ rw a (elim (Bool-cases (str_eq key "manual.keep")) [
    | inl b ↦ rw b (sampled-set_priority_of (w.spans r).context _ w q)
    | inr b ↦ rw b (elim (Bool-cases (str_eq key "manual.drop")) [
      | inl d ↦ rw d (sampled-set_priority_of (w.spans r).context _ w q)
      | inr d ↦ rw d (
          update_keeps (λ s. s.sampled) w.spans r q _
            (sampled-with_meta key (stringify value) (w.spans r)))
    ])
  ])
]

pub set_tag-Settled :
    (r : ℕ) (key : String) (value : Value) (w : World)
    → is_manual key ≡ false
    → Settled (set_tag r key value w) w
set_tag-Settled r key value w plain = record {
  returns = ground (arith, set_tag_raises r key value w);
  keeps = (set_tag-Kept r key value).at w;
  sampled = sampled-set_tag r key value w;
}

-- Tags that choose no sampling priority by hand are set without raising, on any span, and keep what
-- tags keep and every decision.
pub set_tags-Settled :
    (r : ℕ) (tags : Dict Value) (w : World) → Plain tags → Settled (set_tags r tags w) w
unfolding set_tags
set_tags-Settled r [] w plain = Settled-pure w
set_tags-Settled r ((key, value) ∷ tags) w plain =
    Settled-bind (set_tag r key value) (set_tags r tags) w (set_tag-Settled r key value w plain.0)
      (set_tags-Settled r tags (set_tag r key value w).1 plain.1)

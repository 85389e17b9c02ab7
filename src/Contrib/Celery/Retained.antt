-- ===== src/Contrib/Celery/Retained.antt =====
-- oteltrace/contrib/celery/utils.py: the laws of the dicts that hold the spans of a task.
use opentelemetry_auto_instr.Common.{
  ℕ, ◌==◌, ◌≡◌, refl, ap, sym, ◌∙◌, Bool, true, false, ◌&&◌, Option, none, some, String, [], ◌∷◌,
  eq_iff, eq_refl, arith, if◌then◌else◌, Bool-cases, inl, inr,
}
use opentelemetry_auto_instr.Contrib.Celery.{
  Key, key_eq, SpanDict, get_span, put_span, pop_span, Worker, or_empty, attach_span, detach_from,
  detach_span, retrieve_span,
}

key_eq_sound : (k j : Key) → key_eq k j ≡ true → k ≡ j
key_eq_sound (id, true) (id', true) h = ap (λ s. (s, true)) ((eq_iff id id').0 (ground (arith, h)))
key_eq_sound (id, false) (id', false) h =
    ap (λ s. (s, false)) ((eq_iff id id').0 (ground (arith, h)))
key_eq_sound (id, true) (id', false) h = absurd (ground (arith, h))
key_eq_sound (id, false) (id', true) h = absurd (ground (arith, h))

key_eq_refl : (k : Key) → key_eq k k ≡ true
key_eq_refl (id, true) = simp eq_refl refl
key_eq_refl (id, false) = simp eq_refl refl

same_test : (i k j : Key) → key_eq i k ≡ true → key_eq i j ≡ key_eq k j
same_test i k j e = ap (λ x. key_eq x j) (key_eq_sound i k e)

-- one key is not equal to two different ones
exclusive : (i k j : Key) → key_eq i k ≡ false → key_eq i j ≡ true → key_eq k j ≡ false
exclusive i k j e f = elim (Bool-cases (key_eq k j)) [
  | inl g ↦ absurd (
      let same : key_eq i k ≡ true =
        ap (λ x. key_eq x k) (key_eq_sound i j f ∙ sym (key_eq_sound k j g)) ∙ key_eq_refl k in
      ground (arith, e, same))
  | inr g ↦ g
]

get_span-put_span :
    (k j : Key) (r : ℕ) (d : SpanDict)
    → get_span j (put_span k r d) ≡ (if key_eq k j then some r else get_span j d)
unfolding get_span put_span
get_span-put_span k j r [] = refl
get_span-put_span k j r ((i, q) ∷ d) = elim (Bool-cases (key_eq i k)) [
  | inl e ↦ let same = same_test i k j e in rw e (ground (arith, same))
  | inr e ↦
      let h = get_span-put_span k j r d in
      let other = exclusive i k j e in rw e (ground (arith, h, other))
]

get_span-pop_span :
    (k j : Key) (d : SpanDict)
    → get_span j (pop_span k d) ≡ (if key_eq k j then none else get_span j d)
unfolding get_span pop_span
get_span-pop_span k j [] = ground arith
get_span-pop_span k j ((i, q) ∷ d) = elim (Bool-cases (key_eq i k)) [
  | inl e ↦
      let same = same_test i k j e in
      let h = get_span-pop_span k j d in rw e (ground (arith, h, same))
  | inr e ↦
      let h = get_span-pop_span k j d in
      let other = exclusive i k j e in rw e (ground (arith, h, other))
]

-- What a task has after a span was attached to a task, or detached from one.
pub retrieve_span-attach_span :
    (task t : ℕ) (id i : String) (r : ℕ) (publish p : Bool) (s : Worker)
    → retrieve_span t i p (attach_span task id r publish s)
      ≡ (if task == t && key_eq (id, publish) (i, p) then some r else retrieve_span t i p s)
unfolding retrieve_span attach_span
retrieve_span-attach_span task t id i r publish p s =
    let h = get_span-put_span (id, publish) (i, p) r (or_empty (s.dicts task)) in
    elim (Bool-cases (task == t)) [
      | inl e ↦
          let same : task ≡ t = ground (arith, e) in
          rw e (
            h
            ∙ ap
                (λ n.
                  if key_eq (id, publish) (i, p)
                  then some r
                  else get_span (i, p) (or_empty (s.dicts n)))
                same)
      | inr e ↦ rw e refl
    ]

pub retrieve_span-detach_span :
    (task t : ℕ) (id i : String) (publish p : Bool) (s : Worker)
    → retrieve_span t i p (detach_span task id publish s)
      ≡ (if task == t && key_eq (id, publish) (i, p) then none else retrieve_span t i p s)
unfolding retrieve_span detach_span get_span
retrieve_span-detach_span task t id i publish p s = held (s.dicts task) refl (task == t) refl
  where
    held :
        (o : Option SpanDict)
        → s.dicts task ≡ o
        → (b : Bool) → task == t ≡ b
        → retrieve_span t i p (detach_from o task id publish s)
          ≡ (if b && key_eq (id, publish) (i, p) then none else retrieve_span t i p s)
    held none e true f =
        let same : task ≡ t = ground (arith, f) in
        let missing = ap s.dicts (sym same) ∙ e in rw missing (ground arith)
    held none e false f = refl
    held (some d) e true f =
        let same : task ≡ t = ground (arith, f) in
        let there = ap s.dicts (sym same) ∙ e in
        rw (f, there) (get_span-pop_span (id, publish) (i, p) d)
    held (some d) e false f = rw f refl

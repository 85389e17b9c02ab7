-- ===== src/Context/Taking.antt =====
-- oteltrace/context.py: what `get` returns of a trace, and what it leaves.
use opentelemetry_auto_instr.Common.{
  ℕ, ◌≡◌, ◌≢◌, refl, sym, ◌∙◌, ap, ◌==◌, ==_true, ==_self, true, false, Error, not, some, List, [],
  length, keep, arith, Bool-cases, inl, inr, Result, ok, raised, continue,
}
use opentelemetry_auto_instr.Common.Members.{keep_ext, keep_full, keep_none, length-keep}
use opentelemetry_auto_instr.World.{Context, World, on_context}
use opentelemetry_auto_instr.Context.{
  is_finished, is_sampled, tag_root, reset, take_all, take_finished, get,
}
use opentelemetry_auto_instr.Context.Left.{
  flush-Consistent, open_spans, finished_spans, flushes, remains, remains-open, HandsOver,
  HandedOver, give_up,
}
use opentelemetry_auto_instr.Context.Root.{Tagged, Keeps-Tagged, tag_root-Tagged, tag_root_raised}
use opentelemetry_auto_instr.Context.Consistent.{Consistent, Consistent-Keeps}

module _ (c : ℕ) (w : World) (h : Consistent w) where
  -- the trace once the root is tagged
  open_tagged : (w' : World) → Tagged w w' → open_spans c w' ≡ open_spans c w
  open_tagged w' k =
      ap (λ x. keep (λ r. not (is_finished w' r)) x.trace) (k.contexts c)
      ∙ keep_ext _ _ (w.contexts c).trace (λ r. ap (λ s. not s.finished) (k.spans r))

  -- taking on the spans and contexts, once the root is tagged in w'
  hand_over :
      (f : World → Context → Context) (remains : Context) (taken : List ℕ) (res : Result Unit)
      (w' : World)
      → Tagged w w'
      → ((e : Error) → res ≡ raised e → (w' ≡ w) × ((w.contexts c).trace ≡ []))
      → f w' (w'.contexts c) ≡ remains
      → HandsOver c w taken (is_sampled w (w.contexts c).trace) (on_context c (λ _. remains) w)
      → remains.finished_spans ≡ 0
      → HandedOver c w
          (continue res (λ _. give_up c f (some (taken, is_sampled w (w.contexts c).trace))) w')
        × Consistent
            (continue res (λ _. give_up c f (some (taken, is_sampled w (w.contexts c).trace))) w').1
  unfolding on_context
  hand_over f remains taken (raised e) w' k bare same hands none_left =
      (bare e refl, Consistent-Keeps w w' (Keeps-Tagged k) h)
  hand_over f remains taken (ok u) w' k bare same hands none_left = (
    record {
      finished = hands.finished;
      decided = hands.decided;
      left = simp (==_self, same) (rw ==_self at hands.left);
      remaining = simp (==_self, same) (rw ==_self at hands.remaining);
      enough = hands.enough;
      current = simp (==_self, same) (rw ==_self at hands.current);
      others = λ d ne. ground (arith, k.contexts d);
      spans = k.spans;
    },
    flush-Consistent c (f w') w' (Consistent-Keeps w w' (Keeps-Tagged k) h)
        (ap (λ x. x.trace) same ∙ (rw ==_self at hands.left) ∙ sym (open_tagged w' k))
        (ap (λ x. x.finished_spans) same ∙ none_left),
  )

  all_finished : (w.contexts c).finished_spans ≡ length (w.contexts c).trace → open_spans c w ≡ []
  all_finished full = keep_none (is_finished w) (w.contexts c).trace (sym (h.counted c) ∙ full)

  -- some span of the trace is not finished
  some_open :
      ((w.contexts c).finished_spans == length (w.contexts c).trace) ≡ false → open_spans c w ≢ []
  some_open partial none_open =
      ground
        (arith, h.counted c, length-keep (is_finished w) (w.contexts c).trace, ap length none_open)

  abbrev tagged_world : World
  tagged_world =
      (tag_root (w.contexts c).trace (is_sampled w (w.contexts c).trace) (w.contexts c) w).1

  tagged : Tagged w tagged_world
  tagged = tag_root-Tagged (w.contexts c).trace (is_sampled w (w.contexts c).trace) (w.contexts c) w

  take_all-HandedOver :
      (w.contexts c).finished_spans ≡ length (w.contexts c).trace
      → HandedOver c w (take_all c w) × Consistent (take_all c w).1
  unfolding take_all on_context
  take_all-HandedOver full =
      hand_over (λ w'. reset) (reset (w.contexts c)) (w.contexts c).trace _ _ tagged
        (tag_root_raised (w.contexts c).trace _ _ w) (ap reset (tagged.contexts c))
        (record {
          finished =
              sym (keep_full (is_finished w) (w.contexts c).trace (sym (h.counted c) ∙ full));
          decided = refl;
          left = simp ==_self (sym (all_finished full));
          remaining = simp (==_self, all_finished full) refl;
          enough = inl (all_finished full);
          current = simp ==_self refl;
          others = λ d ne. ground arith;
          spans = λ r. refl;
        })
        refl

  take_finished-HandedOver :
      open_spans c w ≢ []
      → flushes c w ≡ true
      → HandedOver c w (take_finished c w) × Consistent (take_finished c w).1
  unfolding take_finished on_context
  take_finished-HandedOver waiting flush =
      hand_over
        (λ w' context. record context {
          finished_spans = 0;
          trace = keep (λ r. not (is_finished w' r)) context.trace;
        })
        (record (w.contexts c) { finished_spans = 0; trace = open_spans c w }) (finished_spans c w)
        _ _ tagged (tag_root_raised (w.contexts c).trace _ _ w)
        (ap
            (λ (x : Context). record x {
              finished_spans = 0;
              trace = keep (λ r. not (is_finished tagged_world r)) x.trace;
            })
            (tagged.contexts c)
          ∙ ap (λ (l : List ℕ). record (w.contexts c) { finished_spans = 0; trace = l })
              (keep_ext _ _ (w.contexts c).trace (λ r. ap (λ s. not s.finished) (tagged.spans r))))
        (record {
          finished = refl;
          decided = refl;
          left = simp ==_self refl;
          remaining = simp ==_self (remains-open (open_spans c w) (w.contexts c) waiting);
          enough = inr flush;
          current = simp ==_self refl;
          others = λ d ne. ground arith;
          spans = λ r. refl;
        })
        refl

  -- From contexts and spans that agree, `get` does one of three things. It returns nothing and changes
  -- nothing, where some span of the trace is not finished, and partial flushing is off or too few are.
  -- It raises and changes nothing, for a trace with no spans. Or it returns exactly the finished spans of
  -- the trace, in their order, with the disjunction of their trace's decisions; if that is the whole
  -- trace, the context keeps its current span and its origin and all else is reset, and if not, partial
  -- flushing is on and enough are finished, and the context keeps all but the spans taken and their
  -- count. All other contexts, and all of every span but its tags and metrics, are then as they were.
  -- The contexts and spans agree afterwards in every case.
  pub get-HandedOver : HandedOver c w (get c w) × Consistent (get c w).1
  unfolding get
  get-HandedOver =
      elim (Bool-cases ((w.contexts c).finished_spans == length (w.contexts c).trace)) [
        | inl full ↦ simp full (take_all-HandedOver (==_true _ _ full))
        | inr partial ↦ simp partial (elim (Bool-cases (flushes c w)) [
          | inl flush ↦ simp flush (take_finished-HandedOver (some_open partial) flush)
          | inr wait ↦ simp wait ((refl, some_open partial, refl), h)
        ])
      ]

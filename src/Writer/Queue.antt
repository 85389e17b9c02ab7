-- ===== src/Writer/Queue.antt =====
-- oteltrace/internal/writer.py: what `Q` keeps and what it loses.
use mathlib.Core.Path.{subst}
use mathlib.Core.List.{Perm, perm_middle, append_assoc}
use mathlib.Core.List.Perm
use opentelemetry_auto_instr.Common.{
  ℕ, zero, suc, ◌+◌, ◌%◌, ◌≤◌, ◌<◌, ◌≡◌, refl, sym, true, false, Option, none, some, List, [], ◌∷◌,
  ◌++◌, length, set, length-set, length-append, arith, Bool-cases, inl, inr, ap,
}
use opentelemetry_auto_instr.Writer.{Q, is_full, put, get, reset_stats}

-- An operation of the tracer's thread or of the writer's.
pub data Op (A : Type 0) : Type 0 where
  puts : ℕ → List A → Op A
  gets : Op A
  resets : Op A

-- The queue, with what happened since the start: the items that were put and those that left it, the
-- last first, and what was reported of those accepted and dropped.
pub record History (A : Type 0) : Type 0 where
  pub q : Q A
  pub offered : List (List A)
  pub delivered : List (List A)
  pub accepted : ℕ
  pub dropped : ℕ

abbrev items_popped : {A : Type 0} → Option (List (List A)) → List (List A)
items_popped none = []
items_popped (some items) = items

module _ {A : Type 0} where
  pub step : Op A → History A → History A
  step (puts slot item) h = record h { q = put slot item h.q; offered = item ∷ h.offered }
  step gets h =
      let (popped, q) = get h.q in
      record h { q = q; delivered = items_popped popped ++ h.delivered }
  step resets h =
      let (stats, q) = reset_stats h.q in
      record h {
        q = q;
        accepted = h.accepted + stats.accepted;
        dropped = h.dropped + stats.dropped;
      }

  pub run : List (Op A) → History A → History A
  run [] h = h
  run (op ∷ ops) h = run ops (step op h)

  -- Every item put is accepted, and is in the queue, was delivered or is one of the lost, which are
  -- counted as dropped; and a bounded queue is within its bound.
  pub record Accounts (h : History A) : Type 0 where
    pub lost : List (List A)
    pub accounted : Perm h.offered (h.q.queue ++ (h.delivered ++ lost))
    pub all_dropped : length lost ≡ h.dropped + h.q.dropped
    pub all_accepted : length h.offered ≡ h.accepted + h.q.accepted
    pub bounded : length h.q.queue ≤ h.q.maxsize
    pub sized : 0 < h.q.maxsize

  -- an item that is put behind the others
  put_last :
      (item : List A) {offered : List (List A)} (queue others : List (List A))
      → Perm offered (queue ++ others)
      → Perm (item ∷ offered) ((queue ++ item ∷ []) ++ others)
  put_last item queue others k =
      subst (Perm (item ∷ _)) (sym (append_assoc queue (item ∷ []) others))
        (Perm.trans (Perm.cons item k) (Perm.symm (perm_middle queue others)))

  -- an item that is put in the place of another, which is lost
  put_over :
      (item old : List A) {offered : List (List A)} (before after delivered lost : List (List A))
      → Perm offered ((before ++ old ∷ after) ++ (delivered ++ lost))
      → Perm (item ∷ offered) ((before ++ item ∷ after) ++ (delivered ++ (old ∷ lost)))
  put_over item old before after delivered lost k =
      let others = delivered ++ lost in
      let moved = Perm.trans k (Perm.append_right others (perm_middle before after)) in
      let at_end : Perm (old ∷ (before ++ after) ++ others)
          ((before ++ after) ++ (delivered ++ old ∷ lost)) =
        Perm.trans (Perm.symm (perm_middle (before ++ after) others))
          (Perm.append_left (before ++ after) (Perm.symm (perm_middle delivered lost))) in
      Perm.trans (Perm.cons item (Perm.trans moved at_end))
        (Perm.append_right (delivered ++ old ∷ lost) (Perm.symm (perm_middle before after)))

  -- A list about one of its places, and with another item there.
  record Replaced (items items' : List (List A)) (item : List A) : Type 0 where
    old : List A
    before : List (List A)
    after : List (List A)
    was : items ≡ before ++ old ∷ after
    now : items' ≡ before ++ item ∷ after

  set-Replaced :
      (items : List (List A)) (i : ℕ) (item : List A)
      → i < length items
      → Replaced items (set items i item) item
  set-Replaced [] i item h = elim h [ ]
  set-Replaced (x ∷ items) zero item h = record {
    old = x;
    before = [];
    after = items;
    was = refl;
    now = refl;
  }
  set-Replaced (x ∷ items) (suc i) item h =
      let k = set-Replaced items i item (omega arith) in
      record {
        old = k.old;
        before = x ∷ k.before;
        after = k.after;
        was = ap (λ l. x ∷ l) k.was;
        now = ap (λ l. x ∷ l) k.now;
      }

  full_room : (q : Q A) (slot : ℕ) → is_full q ≡ true → slot % length q.queue < length q.queue
  unfolding is_full
  full_room q slot full = ground arith

  not_full : (q : Q A) → is_full q ≡ false → 0 < q.maxsize → length q.queue < q.maxsize
  unfolding is_full
  not_full q room sized = ground arith

  put-Accounts :
      (slot : ℕ) (item : List A) (h : History A) → Accounts h → Accounts (step (puts slot item) h)
  unfolding step put
  put-Accounts slot item h a = elim (Bool-cases (is_full h.q)) [
    | inl full ↦
        let k = set-Replaced h.q.queue (slot % length h.q.queue) item (full_room h.q slot full) in
        rw full (record {
          lost = k.old ∷ a.lost;
          accounted =
              rw k.now
                (put_over item k.old k.before k.after h.delivered a.lost (rw k.was at a.accounted));
          all_dropped = ground (arith, a.all_dropped);
          all_accepted = ground (arith, a.all_accepted);
          bounded = rw (length-set h.q.queue (slot % length h.q.queue) item) a.bounded;
          sized = a.sized;
        })
    | inr room ↦ rw room (record {
      lost = a.lost;
      accounted = put_last item h.q.queue (h.delivered ++ a.lost) a.accounted;
      all_dropped = a.all_dropped;
      all_accepted = ground (arith, a.all_accepted);
      bounded = ground (arith, length-append h.q.queue (item ∷ []), not_full h.q room a.sized);
      sized = a.sized;
    })
  ]

  -- what `get` hands over, and what it leaves
  popped_all :
      (q : Q A) → (items_popped (get q).0 ≡ q.queue) × ((get q).1 ≡ record q { queue = [] })
  unfolding get
  popped_all q = by_queue q.queue refl
    where
      by_queue :
          (items : List (List A))
          → q.queue ≡ items
          → (items_popped (get q).0 ≡ q.queue) × ((get q).1 ≡ record q { queue = [] })
      by_queue [] e = ground (arith, e)
      by_queue (x ∷ items) e = ground (arith, e)

  get-Accounts : (h : History A) → Accounts h → Accounts (step gets h)
  unfolding step
  get-Accounts h a =
      let (all, emptied) = popped_all h.q in
      rw (all, emptied)
        (record {
          lost = a.lost;
          accounted =
              subst (Perm h.offered) (sym (append_assoc h.q.queue h.delivered a.lost)) a.accounted;
          all_dropped = a.all_dropped;
          all_accepted = a.all_accepted;
          bounded = omega arith;
          sized = a.sized;
        })

  reset-Accounts : (h : History A) → Accounts h → Accounts (step resets h)
  unfolding step reset_stats
  reset-Accounts h a = record {
    lost = a.lost;
    accounted = a.accounted;
    all_dropped = ground (arith, a.all_dropped);
    all_accepted = ground (arith, a.all_accepted);
    bounded = a.bounded;
    sized = a.sized;
  }

  -- One operation keeps the accounts.
  step-Accounts : (op : Op A) (h : History A) → Accounts h → Accounts (step op h)
  step-Accounts (puts slot item) h a = put-Accounts slot item h a
  step-Accounts gets h a = get-Accounts h a
  step-Accounts resets h a = reset-Accounts h a

  -- Whatever the order of puts, gets and resets: from a queue with its accounts in order, the items
  -- that were put are, in another order, those in the queue, those delivered and those lost, as many of
  -- which are counted as dropped; all are counted as accepted; and the queue stays within its bound.
  pub run-Accounts : (ops : List (Op A)) (h : History A) → Accounts h → Accounts (run ops h)
  unfolding run
  run-Accounts [] h a = a
  run-Accounts (op ∷ ops) h a = run-Accounts ops (step op h) (step-Accounts op h a)

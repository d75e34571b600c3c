-- ===== src/Merge/Order.antt =====
-- The order of the rows that `merge_rows_by_connection` yields (src/data/ordered_merge.py).
use greenfield.Base.{
  ℕ, zero, suc, ◌+◌, true, false, ◌≡◌, refl, sym, subst, List, [], ◌∷◌, All, Result-cases,
  Bool-cases, inl, inr, arith,
}
use greenfield.Merge.{
  End, Keys, MergeSource, Entry, Sequences, State, check_sequence, entry_less, heappush, push_next,
  admissible, admit, turn, merge_loop, insert_source, sort_sources, merge_rows_by_connection,
  tally_sources,
}
use greenfield.Merge.Yields.{
  IsOrder, AtMost, IsAscending, IsSource, AllRows, heappush-All, push_next-All, merge_loop-All,
}

module _ {T K F S : Type 0} (keys : Keys T K F S) (order : IsOrder keys) where
  -- An entry of a source that is in order.
  abbrev IsEntry : Entry T K → Type 0
  IsEntry e = (e.key ≡ keys.order_key e.row) × IsAscending keys (e.row ∷ e.rest)

  -- A heap is in order, and so are its entries.
  abbrev IsHeap : List (Entry T K) → Type 0
  IsHeap [] = Unit
  IsHeap (e ∷ heap) = IsEntry e × All (λ f. AtMost keys e.key f.key) heap × IsHeap heap

  weaken :
      (a b : K) (heap : List (Entry T K))
      → AtMost keys a b
      → All (λ f. AtMost keys b f.key) heap
      → All (λ f. AtMost keys a f.key) heap
  weaken a b [] h v = tt
  weaken a b (e ∷ heap) h v = (order.trans a b e.key h v.0, weaken a b heap h v.1)

  heappush-IsHeap :
      (e : Entry T K) (heap : List (Entry T K))
      → IsEntry e
      → IsHeap heap
      → IsHeap (heappush keys e heap)
  unfolding heappush
  heappush-IsHeap e [] own v = (own, tt, tt)
  heappush-IsHeap e (h ∷ hs) own v = elim (Bool-cases (entry_less keys e h)) [
    | inl before ↦
        let below : AtMost keys e.key h.key = ground (arith, order.asym e.key h.key) in
        rw before (own, (below, weaken e.key h.key hs below v.1), v)
    | inr after ↦
        let below : AtMost keys h.key e.key = ground arith in
        rw after (
          v.0,
          heappush-All keys (λ r. Unit) (λ f. AtMost keys h.key f.key) e hs below v.1,
          heappush-IsHeap e hs own v.2,
        )
  ]

  push_next-IsHeap :
      (i : ℕ) (rows : List T) (heap : List (Entry T K))
      → IsAscending keys rows
      → IsHeap heap
      → IsHeap (push_next keys i rows heap)
  push_next-IsHeap i [] heap own v = v
  push_next-IsHeap i (r ∷ rs) heap own v =
      heappush-IsHeap (record { key = keys.order_key r; index = i; row = r; rest = rs }) heap
        (refl, own) v

  -- The sources that are not open are in the order of their lower bounds.
  abbrev IsQueue : List (MergeSource T F) → Type 0
  IsQueue [] = Unit
  IsQueue (s ∷ ss) =
      IsSource keys s × All (λ q. keys.bound_leb s.lower_bound q.lower_bound ≡ true) ss × IsQueue ss

  -- The queue after the inner loop has rows that the head of the heap may come before.
  abbrev Waits : List (MergeSource T F) → List (Entry T K) → Type 0
  Waits pending [] = pending ≡ []
  Waits pending (e ∷ heap) =
      All (λ q. All (λ r. AtMost keys e.key (keys.order_key r)) q.rows) pending

  bound_refl : (b : F) → keys.bound_leb b b ≡ true
  bound_refl b = elim (Bool-cases (keys.bound_less b b)) [
    | inl less ↦ order.bound_yes b b less
    | inr equal ↦ order.bound_no b b equal
  ]

  waiting_rows :
      (m : K) (s : MergeSource T F) (b : F) (rows : List T)
      → keys.bound_leb b (keys.first m) ≡ false
      → keys.bound_leb b s.lower_bound ≡ true
      → All (λ r. keys.bound_leb s.lower_bound (keys.first (keys.order_key r)) ≡ true) rows
      → All (λ r. AtMost keys m (keys.order_key r)) rows
  waiting_rows m s b [] out later v = tt
  waiting_rows m s b (r ∷ rows) out later v = (
    elim (Bool-cases (keys.key_less (keys.order_key r) m)) [
      | inr there ↦ there
      | inl before ↦
          let through =
            order.bound_trans b s.lower_bound (keys.first (keys.order_key r)) later v.0 in
          let over =
            order.bound_trans b (keys.first (keys.order_key r)) (keys.first m) through
              (order.first_leb (keys.order_key r) m before) in
          absurd (ground arith)
    ],
    waiting_rows m s b rows out later v.1,
  )

  waiting_queue :
      (m : K) (b : F) (ss : List (MergeSource T F))
      → keys.bound_leb b (keys.first m) ≡ false
      → All (λ q. keys.bound_leb b q.lower_bound ≡ true) ss
      → IsQueue ss
      → All (λ q. All (λ r. AtMost keys m (keys.order_key r)) q.rows) ss
  waiting_queue m b [] out later v = tt
  waiting_queue m b (s ∷ ss) out later v =
      (waiting_rows m s b s.rows out later.0 v.0.bounded, waiting_queue m b ss out later.1 v.2)

  abbrev InOrder : State T K F S → Type 0
  InOrder s = IsHeap s.heap × IsQueue s.pending

  none-Waits : (heap : List (Entry T K)) → Waits [] heap
  none-Waits [] = refl
  none-Waits (e ∷ heap) = tt

  admit-InOrder :
      (last : Sequences S) (pending : List (MergeSource T F)) (heap : List (Entry T K)) (i : ℕ)
      → IsHeap heap
      → IsQueue pending
      → InOrder (admit keys last pending heap i)
        × Waits (admit keys last pending heap i).pending (admit keys last pending heap i).heap
  unfolding admit
  admit-InOrder last [] heap i hh hq = ((hh, tt), none-Waits heap)
  admit-InOrder last (s ∷ ps) [] i hh hq =
      admit-InOrder last ps (push_next keys i s.rows []) (i + 1)
        (push_next-IsHeap i s.rows [] hq.0.ascending tt) hq.2
  admit-InOrder last (s ∷ ps) (e ∷ heap) i hh hq =
      elim (Bool-cases (admissible keys s (e ∷ heap))) [
        | inr later ↦ rw later (
          (hh, hq),
          (
            waiting_rows e.key s s.lower_bound s.rows later (bound_refl s.lower_bound) hq.0.bounded,
            waiting_queue e.key s.lower_bound ps later hq.1 hq.2,
          ),
        )
        | inl now ↦ rw now (
            admit-InOrder last ps (push_next keys i s.rows (e ∷ heap)) (i + 1)
              (push_next-IsHeap i s.rows (e ∷ heap) hq.0.ascending hh) hq.2)
      ]

  rows_above :
      (m k : K) (rows : List T)
      → AtMost keys m k
      → All (λ r. AtMost keys k (keys.order_key r)) rows
      → All (λ r. AtMost keys m (keys.order_key r)) rows
  rows_above m k [] h v = tt
  rows_above m k (r ∷ rows) h v =
      (order.trans m k (keys.order_key r) h v.0, rows_above m k rows h v.1)

  heap_above :
      (m : K) (heap : List (Entry T K))
      → All (λ f. AtMost keys m f.key) heap
      → IsHeap heap
      → All
          (λ f.
            AtMost keys m (keys.order_key f.row)
            × All (λ r. AtMost keys m (keys.order_key r)) f.rest)
          heap
  heap_above m [] h v = tt
  heap_above m (f ∷ heap) h v =
      let own : AtMost keys m (keys.order_key f.row) = subst (λ k. AtMost keys m k) v.0.0 h.0 in
      ((own, rows_above m (keys.order_key f.row) f.rest own v.0.1.0), heap_above m heap h.1 v.2)

  turn-IsAscending :
      (next : State T K F S → List T × End)
      (good : (s : State T K F S) → InOrder s → IsAscending keys (next s).0)
      (all : (P : T → Type 0) (s : State T K F S) → AllRows keys P s → All P (next s).0)
      (pending : List (MergeSource T F)) (i : ℕ) (last : Sequences S) (heap : List (Entry T K))
      → IsHeap heap
      → IsQueue pending
      → Waits pending heap
      → IsAscending keys (turn keys next pending i last heap).0
  turn-IsAscending next good all pending i last [] hh hq w = tt
  turn-IsAscending next good all pending i last (e ∷ heap) hh hq w =
      elim (Result-cases (check_sequence keys e.row last)) [
        | inr (x, refused) ↦
            let left : (turn keys next pending i last (e ∷ heap)).0 ≡ [] = ground arith in
            subst (IsAscending keys) (sym left) tt
        | inl (later, passed) ↦
            let s : State T K F S = record {
              pending = pending;
              heap = push_next keys e.index e.rest heap;
              last = later;
              next_index = i;
            } in
            let left : (turn keys next pending i last (e ∷ heap)).0 ≡ e.row ∷ (next s).0 =
              ground arith in
            let P : T → Type 0 = λ r. AtMost keys (keys.order_key e.row) (keys.order_key r) in
            let above = subst (λ k. All (λ f. AtMost keys k f.key) heap) hh.0.0 hh.1 in
            let waits =
              subst (λ k. All (λ q. All (λ r. AtMost keys k (keys.order_key r)) q.rows) pending)
                hh.0.0 w in
            let rows : AllRows keys P s = record {
              heap =
                  push_next-All keys P e.index e.rest heap hh.0.1.0
                    (heap_above (keys.order_key e.row) heap above hh.2);
              pending = waits;
            } in
            subst (IsAscending keys) (sym left)
              (all P s rows, good s (push_next-IsHeap e.index e.rest heap hh.0.1.1 hh.2, hq))
      ]

  merge_loop-IsAscending :
      (n : ℕ) (s : State T K F S) → InOrder s → IsAscending keys (merge_loop keys n s).0
  unfolding merge_loop
  merge_loop-IsAscending zero s v = tt
  merge_loop-IsAscending (suc n) s v =
      let a = admit-InOrder s.last s.pending s.heap s.next_index v.0 v.1 in
      turn-IsAscending (λ next. merge_loop keys n next) (λ t. merge_loop-IsAscending n t)
        (λ P t. merge_loop-All keys P n t) _ _ _ _ a.0.0 a.0.1 a.1

  below-All :
      (b c : F) (ss : List (MergeSource T F))
      → keys.bound_leb b c ≡ true
      → All (λ q. keys.bound_leb c q.lower_bound ≡ true) ss
      → All (λ q. keys.bound_leb b q.lower_bound ≡ true) ss
  below-All b c [] h v = tt
  below-All b c (s ∷ ss) h v = (order.bound_trans b c s.lower_bound h v.0, below-All b c ss h v.1)

  insert_source-All :
      (b : F) (s : MergeSource T F) (ss : List (MergeSource T F))
      → keys.bound_leb b s.lower_bound ≡ true
      → All (λ q. keys.bound_leb b q.lower_bound ≡ true) ss
      → All (λ q. keys.bound_leb b q.lower_bound ≡ true) (insert_source keys s ss)
  unfolding insert_source
  insert_source-All b s [] h v = (h, tt)
  insert_source-All b s (q ∷ ss) h v =
      elim (Bool-cases (keys.bound_less q.lower_bound s.lower_bound)) [
        | inl before ↦ rw before (v.0, insert_source-All b s ss h v.1)
        | inr after ↦ rw after (h, v)
      ]

  insert_source-IsQueue :
      (s : MergeSource T F) (ss : List (MergeSource T F))
      → IsSource keys s
      → IsQueue ss
      → IsQueue (insert_source keys s ss)
  unfolding insert_source
  insert_source-IsQueue s [] own v = (own, tt, tt)
  insert_source-IsQueue s (q ∷ ss) own v =
      elim (Bool-cases (keys.bound_less q.lower_bound s.lower_bound)) [
        | inl before ↦ rw before (
          v.0,
          insert_source-All q.lower_bound s ss (order.bound_yes q.lower_bound s.lower_bound before)
              v.1,
          insert_source-IsQueue s ss own v.2,
        )
        | inr after ↦
            let below = order.bound_no q.lower_bound s.lower_bound after in
            rw after (own, (below, below-All s.lower_bound q.lower_bound ss below v.1), v)
      ]

  sort_sources-IsQueue :
      (ss : List (MergeSource T F)) → All (IsSource keys) ss → IsQueue (sort_sources keys ss)
  unfolding sort_sources
  sort_sources-IsQueue [] v = tt
  sort_sources-IsQueue (s ∷ ss) v =
      insert_source-IsQueue s (sort_sources keys ss) v.0 (sort_sources-IsQueue ss v.1)

  -- When order keys and lower bounds are compared by an order (`IsOrder`), every source has its
  -- rows in order and a lower bound that no first field of its rows is below, then the rows that
  -- the merge yields are in the order of their keys, also when it ends with an error.
  pub merge-IsAscending :
      (sources : List (MergeSource T F))
      → All (IsSource keys) sources
      → IsAscending keys (merge_rows_by_connection keys sources).0
  unfolding merge_rows_by_connection
  merge-IsAscending sources v =
      merge_loop-IsAscending (suc (tally_sources (λ r. true) sources))
        (record { pending = sort_sources keys sources; heap = []; last = []; next_index = 0 })
        (tt, sort_sources-IsQueue sources v)

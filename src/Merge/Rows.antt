-- ===== src/Merge/Rows.antt =====
-- The rows that `merge_rows_by_connection` yields, and its fuel (src/data/ordered_merge.py).
use greenfield.Base.{
  ℕ, zero, suc, ◌+◌, ◌<◌, Bool, true, ◌≡◌, ◌≢◌, refl, sym, ◌∙◌, ap, List, [], ◌∷◌, Result-cases,
  Bool-cases, inl, inr, arith,
}
use greenfield.Merge.{
  End, finished, out_of_fuel, Keys, MergeSource, Entry, Sequences, State, check_sequence, heappush,
  push_next, admissible, admit, turn, merge_loop, insert_source, sort_sources, tally, tally_sources,
  merge_rows_by_connection,
}

-- How many of the rows that a heap still has to give pass a test.
pub tally_heap : {T K : Type 0} → (T → Bool) → List (Entry T K) → ℕ
tally_heap p [] = 0
tally_heap p (e ∷ heap) = tally p (e.row ∷ e.rest) + tally_heap p heap

module _ {T K F S : Type 0} (keys : Keys T K F S) (p : T → Bool) where
  tally_heap-heappush :
      (e : Entry T K) (heap : List (Entry T K))
      → tally_heap p (heappush keys e heap) ≡ tally p (e.row ∷ e.rest) + tally_heap p heap
  unfolding heappush tally_heap
  tally_heap-heappush e [] = refl
  tally_heap-heappush e (h ∷ hs) = ground (arith, tally_heap-heappush e hs)

  tally_heap-push_next :
      (i : ℕ) (rows : List T) (heap : List (Entry T K))
      → tally_heap p (push_next keys i rows heap) ≡ tally p rows + tally_heap p heap
  unfolding tally
  tally_heap-push_next i [] heap = omega arith
  tally_heap-push_next i (r ∷ rs) heap =
      tally_heap-heappush (record { key = keys.order_key r; index = i; row = r; rest = rs }) heap

  -- The rows that a state has still to give.
  abbrev tally_state : State T K F S → ℕ
  tally_state s = tally_sources p s.pending + tally_heap p s.heap

  tally_state-admit :
      (last : Sequences S) (pending : List (MergeSource T F)) (heap : List (Entry T K)) (i : ℕ)
      → tally_state (admit keys last pending heap i) ≡ tally_sources p pending + tally_heap p heap
  unfolding admit tally_sources
  tally_state-admit last [] heap i = refl
  tally_state-admit last (s ∷ ps) heap i = elim (Bool-cases (admissible keys s heap)) [
    | inr later ↦ rw later refl
    | inl now ↦ rw now (
        ground (
          arith,
          tally_state-admit last ps (push_next keys i s.rows heap) (i + 1),
          tally_heap-push_next i s.rows heap,
        ))
  ]

  -- The inner loop stops at an empty heap only when no source is left.
  pub admit-exhausted :
      (last : Sequences S) (pending : List (MergeSource T F)) (heap : List (Entry T K)) (i : ℕ)
      → (admit keys last pending heap i).heap ≡ []
      → (admit keys last pending heap i).pending ≡ []
  unfolding admit
  admit-exhausted last [] heap i h = refl
  admit-exhausted last (s ∷ ps) [] i h =
      admit-exhausted last ps (push_next keys i s.rows []) (i + 1) h
  admit-exhausted last (s ∷ ps) (e ∷ heap) i h = elim (Bool-cases (admissible keys s (e ∷ heap))) [
    | inr later ↦ absurd (ground arith)
    | inl now ↦
        let there : (admit keys last ps (push_next keys i s.rows (e ∷ heap)) (i + 1)).heap ≡ [] =
          ground arith in
        rw now (admit-exhausted last ps (push_next keys i s.rows (e ∷ heap)) (i + 1) there)
  ]

  module _ (next : State T K F S → List T × End)
      (good : (s : State T K F S) (rows : List T)
        → next s ≡ (rows, finished)
        → tally p rows ≡ tally_state s) where
    tally-turn :
        (pending : List (MergeSource T F)) (i : ℕ) (last : Sequences S) (heap : List (Entry T K))
        (rows : List T)
        → (heap ≡ [] → pending ≡ [])
        → turn keys next pending i last heap ≡ (rows, finished)
        → tally p rows ≡ tally_sources p pending + tally_heap p heap
    unfolding tally tally_sources tally_heap
    tally-turn pending i last [] rows exhausted h =
        let none_left : pending ≡ [] = exhausted refl in
        let no_rows : rows ≡ [] = sym (ap (λ x. x.0) h) in rw (none_left, no_rows) (omega arith)
    tally-turn pending i last (e ∷ heap) rows exhausted h =
        elim (Result-cases (check_sequence keys e.row last)) [
          | inr (x, refused) ↦ absurd (ground arith)
          | inl (later, passed) ↦
              let s : State T K F S = record {
                pending = pending;
                heap = push_next keys e.index e.rest heap;
                last = later;
                next_index = i;
              } in
              let e₁ : (next s).1 ≡ finished = ground arith in
              let e₂ : rows ≡ e.row ∷ (next s).0 = ground arith in
              let t = good s (next s).0 (λ k. ((next s).0, e₁ k)) in
              rw e₂ (ground (arith, t, tally_heap-push_next e.index e.rest heap))
        ]

  tally-merge_loop :
      (n : ℕ) (s : State T K F S) (rows : List T)
      → merge_loop keys n s ≡ (rows, finished)
      → tally p rows ≡ tally_state s
  unfolding merge_loop
  tally-merge_loop zero s rows h = absurd (ground arith)
  tally-merge_loop (suc n) s rows h =
      let a = admit keys s.last s.pending s.heap s.next_index in
      tally-turn (λ next. merge_loop keys n next) (λ t out. tally-merge_loop n t out) a.pending
        a.next_index a.last a.heap rows (admit-exhausted s.last s.pending s.heap s.next_index) h
      ∙ tally_state-admit s.last s.pending s.heap s.next_index

  tally_sources-insert_source :
      (s : MergeSource T F) (ss : List (MergeSource T F))
      → tally_sources p (insert_source keys s ss) ≡ tally p s.rows + tally_sources p ss
  unfolding insert_source tally_sources
  tally_sources-insert_source s [] = refl
  tally_sources-insert_source s (t ∷ ss) = ground (arith, tally_sources-insert_source s ss)

  tally_sources-sort_sources :
      (ss : List (MergeSource T F)) → tally_sources p (sort_sources keys ss) ≡ tally_sources p ss
  unfolding sort_sources tally_sources
  tally_sources-sort_sources [] = refl
  tally_sources-sort_sources (s ∷ ss) =
      tally_sources-insert_source s (sort_sources keys ss)
      ∙ ap (λ n. tally p s.rows + n) (tally_sources-sort_sources ss)

-- A turn that yields a row leaves one row fewer, and so the number of the rows bounds the turns.
module _ {T K F S : Type 0} (keys : Keys T K F S) where
  abbrev rows_left : State T K F S → ℕ
  rows_left s = tally_state keys (λ r. true) s

  turn-fuel :
      (next : State T K F S → List T × End) (n : ℕ)
      (good : (s : State T K F S) → rows_left s < n → (next s).1 ≢ out_of_fuel)
      (pending : List (MergeSource T F)) (i : ℕ) (last : Sequences S) (heap : List (Entry T K))
      → tally_sources (λ r. true) pending + tally_heap (λ r. true) heap < suc n
      → (turn keys next pending i last heap).1 ≢ out_of_fuel
  unfolding tally tally_heap
  turn-fuel next n good pending i last [] bound h = absurd (ground arith)
  turn-fuel next n good pending i last (e ∷ heap) bound h =
      elim (Result-cases (check_sequence keys e.row last)) [
        | inr (x, refused) ↦ absurd (ground arith)
        | inl (later, passed) ↦
            let s : State T K F S = record {
              pending = pending;
              heap = push_next keys e.index e.rest heap;
              last = later;
              next_index = i;
            } in
            let out : (next s).1 ≡ out_of_fuel = ground arith in
            good s (ground (arith, tally_heap-push_next keys (λ r. true) e.index e.rest heap)) out
      ]

  merge_loop-fuel :
      (n : ℕ) (s : State T K F S) → rows_left s < n → (merge_loop keys n s).1 ≢ out_of_fuel
  unfolding merge_loop
  merge_loop-fuel zero s bound h = absurd (ground arith)
  merge_loop-fuel (suc n) s bound h =
      let a = admit keys s.last s.pending s.heap s.next_index in
      turn-fuel (λ next. merge_loop keys n next) n (λ t. merge_loop-fuel n t) a.pending a.next_index
        a.last a.heap
        (ground (arith, tally_state-admit keys (λ r. true) s.last s.pending s.heap s.next_index)) h

  -- On any sources, one turn more than they have rows is fuel enough for the merge: it ends because
  -- it is finished or because of an error.
  pub merge-ends :
      (sources : List (MergeSource T F)) → (merge_rows_by_connection keys sources).1 ≢ out_of_fuel
  unfolding merge_rows_by_connection tally_heap
  merge-ends sources =
      merge_loop-fuel (suc (tally_sources (λ r. true) sources))
        (record { pending = sort_sources keys sources; heap = []; last = []; next_index = 0 })
        (ground (arith, tally_sources-sort_sources keys (λ r. true) sources))

  -- When the merge ends without an error, then for any test on rows it has yielded as many rows
  -- that pass as all the sources have together: no row is lost and none is yielded twice.
  pub tally-merge :
      (p : T → Bool) (sources : List (MergeSource T F)) (rows : List T)
      → merge_rows_by_connection keys sources ≡ (rows, finished)
      → tally p rows ≡ tally_sources p sources
  unfolding merge_rows_by_connection tally_heap
  tally-merge p sources rows h =
      let s : State T K F S = record {
        pending = sort_sources keys sources;
        heap = [];
        last = [];
        next_index = 0;
      } in
      let t = tally-merge_loop keys p (suc (tally_sources (λ r. true) sources)) s rows h in
      ground (arith, t, tally_sources-sort_sources keys p sources)

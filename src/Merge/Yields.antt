-- ===== src/Merge/Yields.antt =====
-- The order of rows for src/data/ordered_merge.py, and predicates of all the rows that are left.
use greenfield.Base.{
  ℕ, zero, suc, ◌+◌, true, false, ◌≡◌, sym, subst, List, [], ◌∷◌, All, Result-cases, Bool-cases,
  inl, inr, arith,
}
use greenfield.Merge.{
  End, Keys, MergeSource, Entry, Sequences, State, check_sequence, entry_less, heappush, push_next,
  admissible, admit, turn, merge_loop,
}

-- What the comparisons of order keys and of lower bounds are taken to be: `key_less` is a strict weak
-- order, `bound_leb` is transitive and follows from `bound_less` one way or the other, and the first
-- fields of two keys are in the order of the keys.
pub record IsOrder {T K F S : Type 0} (keys : Keys T K F S) : Type 0 where
  pub asym : (a b : K) → keys.key_less a b ≡ true → keys.key_less b a ≡ false
  pub trans :
      (a b c : K)
      → keys.key_less b a ≡ false
      → keys.key_less c b ≡ false
      → keys.key_less c a ≡ false
  pub first_leb :
      (a b : K) → keys.key_less a b ≡ true → keys.bound_leb (keys.first a) (keys.first b) ≡ true
  pub bound_trans :
      (a b c : F)
      → keys.bound_leb a b ≡ true
      → keys.bound_leb b c ≡ true
      → keys.bound_leb a c ≡ true
  pub bound_yes : (a b : F) → keys.bound_less a b ≡ true → keys.bound_leb a b ≡ true
  pub bound_no : (a b : F) → keys.bound_less a b ≡ false → keys.bound_leb b a ≡ true

module _ {T K F S : Type 0} (keys : Keys T K F S) where
  -- `b` does not come before `a`.
  abbrev pub AtMost : K → K → Type 0
  AtMost a b = keys.key_less b a ≡ false

  -- Rows in order.
  abbrev pub IsAscending : List T → Type 0
  IsAscending [] = Unit
  IsAscending (r ∷ rs) = All (λ t. AtMost (keys.order_key r) (keys.order_key t)) rs × IsAscending rs

  -- A source is in order, and its lower bound is below its rows.
  pub record IsSource (s : MergeSource T F) : Type 0 where
    pub ascending : IsAscending s.rows
    pub bounded :
        All (λ r. keys.bound_leb s.lower_bound (keys.first (keys.order_key r)) ≡ true) s.rows

  -- A predicate of all the rows that a state has still to give.
  pub record AllRows (P : T → Type 0) (s : State T K F S) : Type 0 where
    pub heap : All (λ e. P e.row × All P e.rest) s.heap
    pub pending : All (λ q. All P q.rows) s.pending

  module _ (P : T → Type 0) where
    pub heappush-All :
        (Q : Entry T K → Type 0) (e : Entry T K) (heap : List (Entry T K))
        → Q e
        → All Q heap
        → All Q (heappush keys e heap)
    unfolding heappush
    heappush-All Q e [] own v = (own, tt)
    heappush-All Q e (h ∷ hs) own v = elim (Bool-cases (entry_less keys e h)) [
      | inl before ↦ rw before (own, v)
      | inr after ↦ rw after (v.0, heappush-All Q e hs own v.1)
    ]

    pub push_next-All :
        (i : ℕ) (rows : List T) (heap : List (Entry T K))
        → All P rows
        → All (λ e. P e.row × All P e.rest) heap
        → All (λ e. P e.row × All P e.rest) (push_next keys i rows heap)
    push_next-All i [] heap own v = v
    push_next-All i (r ∷ rs) heap own v =
        heappush-All (λ e. P e.row × All P e.rest)
          (record { key = keys.order_key r; index = i; row = r; rest = rs }) heap own v

    admit-AllRows :
        (last : Sequences S) (pending : List (MergeSource T F)) (heap : List (Entry T K)) (i : ℕ)
        → All (λ e. P e.row × All P e.rest) heap
        → All (λ q. All P q.rows) pending
        → AllRows P (admit keys last pending heap i)
    unfolding admit
    admit-AllRows last [] heap i hh hp = record { heap = hh; pending = hp }
    admit-AllRows last (s ∷ ps) heap i hh hp = elim (Bool-cases (admissible keys s heap)) [
      | inr later ↦ rw later (record { heap = hh; pending = hp })
      | inl now ↦ rw now (
          admit-AllRows last ps (push_next keys i s.rows heap) (i + 1)
            (push_next-All i s.rows heap hp.0 hh) hp.1)
    ]

    turn-All :
        (next : State T K F S → List T × End)
        (good : (s : State T K F S) → AllRows P s → All P (next s).0)
        (pending : List (MergeSource T F)) (i : ℕ) (last : Sequences S) (heap : List (Entry T K))
        → All (λ e. P e.row × All P e.rest) heap
        → All (λ q. All P q.rows) pending
        → All P (turn keys next pending i last heap).0
    turn-All next good pending i last [] hh hp = tt
    turn-All next good pending i last (e ∷ heap) hh hp =
        elim (Result-cases (check_sequence keys e.row last)) [
          | inr (x, refused) ↦
              let left : (turn keys next pending i last (e ∷ heap)).0 ≡ [] = ground arith in
              subst (All P) (sym left) tt
          | inl (later, passed) ↦
              let s : State T K F S = record {
                pending = pending;
                heap = push_next keys e.index e.rest heap;
                last = later;
                next_index = i;
              } in
              let left : (turn keys next pending i last (e ∷ heap)).0 ≡ e.row ∷ (next s).0 =
                ground arith in
              subst (All P) (sym left) (
                hh.0.0,
                good s
                    (record { heap = push_next-All e.index e.rest heap hh.0.1 hh.1; pending = hp }),
              )
        ]

    pub merge_loop-All : (n : ℕ) (s : State T K F S) → AllRows P s → All P (merge_loop keys n s).0
    unfolding merge_loop
    merge_loop-All zero s v = tt
    merge_loop-All (suc n) s v =
        let a = admit-AllRows s.last s.pending s.heap s.next_index v.heap v.pending in
        turn-All (λ next. merge_loop keys n next) (λ t. merge_loop-All n t) _ _ _ _ a.heap a.pending

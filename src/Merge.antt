-- ===== src/Merge.antt =====
-- The k-way merge of src/data/ordered_merge.py. A source is its lower bound and the rows that `open`
-- gives; `iterators[idx]`, which the source keeps in a dictionary, stands in the heap entry of `idx`.
pub mod Rows
pub mod Yields
pub mod Order
mod Tests
use greenfield.Base.{
  ℕ, zero, suc, ◌+◌, ltb, Bool, true, false, not, ◌&&◌, ◌||◌, Option, none, some, String, List, [],
  ◌∷◌, Dict, lookup, insert, Result, ok, err, ◌>>=◌, ◌>>◌, raise_if, if◌then◌else◌,
}

pub data Error : Type 0 where
  -- OrderedMergeError, and the ValueError of `zip(..., strict=True)`
  duplicated regressed unequal_keys : Error

-- How the stream ends, after the rows that it has yielded.
pub data End : Type 0 where
  finished : End
  raised : Error → End
  out_of_fuel : End

-- The arguments of `merge_rows_by_connection`: `fields` is `connection_sequence_key`, or `order_key`
-- where there is none. `key_less` compares two order keys, `bound_leb` a lower bound with `first`,
-- the first field of a key, and `bound_less` two lower bounds; `equal`, `less` and `at_most` compare
-- two fields or two tie breaks.
pub record Keys (T K F S : Type 0) : Type 0 where
  pub connection_id : T → String
  pub order_key : T → K
  pub fields : T → List S
  pub tie_break : Option (T → S)
  pub equal : S → S → Bool
  pub less : S → S → Bool
  pub at_most : S → S → Bool
  pub key_less : K → K → Bool
  pub first : K → F
  pub bound_leb : F → F → Bool
  pub bound_less : F → F → Bool

pub record MergeSource (T F : Type 0) : Type 0 where
  pub lower_bound : F
  pub rows : List T

pub record Entry (T K : Type 0) : Type 0 where
  pub key : K
  pub index : ℕ
  pub row : T
  pub rest : List T

-- `last_sequence_by_connection`
abbrev pub Sequences : Type 0 → Type 0
Sequences S = Dict (List S × Option S)

pub record State (T K F S : Type 0) : Type 0 where
  pub pending : List (MergeSource T F)
  pub heap : List (Entry T K)
  pub last : Sequences S
  pub next_index : ℕ

module _ {T K F S : Type 0} (keys : Keys T K F S) where
  -- `key == previous_key`
  unfoldable pub same_fields : List S → List S → Bool
  same_fields [] [] = true
  same_fields (a ∷ key) (b ∷ previous) = keys.equal a b && same_fields key previous
  same_fields [] (b ∷ previous) = false
  same_fields (a ∷ key) [] = false

  -- `any(field < previous_field ...)` over `zip(key, previous_key, strict=True)`
  unfoldable pub any_less : List S → List S → Result Error Bool
  any_less [] [] = ok false
  any_less (a ∷ key) (b ∷ previous) =
      let rest = any_less key previous in if keys.less a b then ok true else rest
  any_less [] (b ∷ previous) = err unequal_keys
  any_less (a ∷ key) [] = err unequal_keys

  -- not `connection_tie_break_key is None or tie_break <= previous_tie_break`
  abbrev pub breaks_tie : Option S → Option S → Bool
  breaks_tie (some t) (some p) = not (keys.at_most t p)
  breaks_tie (some t) none = false
  breaks_tie none p = false

  -- the comparison of `_check_sequence` with what the connection had before
  abbrev pub compare_last : List S → Option S → Option (List S × Option S) → Result Error (Unit {0})
  compare_last key tie none = ok tt
  compare_last key tie (some (previous, previous_tie)) =
      if same_fields key previous
      then raise_if (not (breaks_tie tie previous_tie)) duplicated
      else (any_less key previous >>= λ less. raise_if less regressed)

abbrev pub option_map : {A B : Type 0} → Option (A → B) → A → Option B
option_map none a = none
option_map (some f) a = some (f a)

-- How many rows pass a test.
unfoldable pub tally : {T : Type 0} → (T → Bool) → List T → ℕ
tally p [] = 0
tally p (r ∷ rs) = (if p r then 1 else 0) + tally p rs

unfoldable pub tally_sources : {T F : Type 0} → (T → Bool) → List (MergeSource T F) → ℕ
unfolding tally
tally_sources p [] = 0
tally_sources p (s ∷ ss) = tally p s.rows + tally_sources p ss

module _ {T K F S : Type 0} (keys : Keys T K F S) where
  -- `_check_sequence`
  unfoldable pub check_sequence : T → Sequences S → Result Error (Sequences S)
  unfolding same_fields any_less
  check_sequence row last = do
    compare_last keys (keys.fields row) (option_map keys.tie_break row)
        (lookup (keys.connection_id row) last)
    ok (insert (keys.connection_id row) (keys.fields row, option_map keys.tie_break row) last)

  -- The heap holds its entries in order: `heappush` puts one in its place, `heappop` takes the first.
  abbrev pub entry_less : Entry T K → Entry T K → Bool
  entry_less a b =
      keys.key_less a.key b.key || (not (keys.key_less b.key a.key) && ltb a.index b.index)

  unfoldable pub heappush : Entry T K → List (Entry T K) → List (Entry T K)
  heappush e [] = e ∷ []
  heappush e (h ∷ hs) = if entry_less e h then e ∷ h ∷ hs else h ∷ heappush e hs

  -- the entry of the next row of an iterator, if it has one
  abbrev pub push_next : ℕ → List T → List (Entry T K) → List (Entry T K)
  push_next i [] heap = heap
  push_next i (r ∷ rs) heap =
      heappush (record { key = keys.order_key r; index = i; row = r; rest = rs }) heap

  -- `not heap or next_pending.lower_bound <= heap[0][0][0]`
  abbrev pub admissible : MergeSource T F → List (Entry T K) → Bool
  admissible s [] = true
  admissible s (h ∷ hs) = keys.bound_leb s.lower_bound (keys.first h.key)

  -- the inner loop, which opens sources
  unfoldable pub admit : Sequences S → List (MergeSource T F) → List (Entry T K) → ℕ → State T K F S
  unfolding heappush
  admit last [] heap i = record { pending = []; heap = heap; last = last; next_index = i }
  admit last (s ∷ ps) heap i =
      let opened = admit last ps (push_next i s.rows heap) (i + 1) in
      if admissible s heap
      then opened
      else record { pending = s ∷ ps; heap = heap; last = last; next_index = i }

  abbrev pub yield_row : T → List T × End → List T × End
  yield_row row (rows, end) = (row ∷ rows, end)

  -- the rest of a turn of the outer loop, and then the next turn
  abbrev pub turn :
      (State T K F S → List T × End)
      → List (MergeSource T F)
      → ℕ
      → Sequences S
      → List (Entry T K)
      → List T × End
  turn next pending i last [] = ([], finished)
  turn next pending i last (e ∷ heap) = elim (check_sequence e.row last) [
    | err x ↦ ([], raised x)
    | ok later ↦ yield_row e.row (
        next (record {
          pending = pending;
          heap = push_next e.index e.rest heap;
          last = later;
          next_index = i;
        }))
  ]

  -- the outer loop
  unfoldable pub merge_loop : ℕ → State T K F S → List T × End
  unfolding check_sequence admit
  merge_loop zero s = ([], out_of_fuel)
  merge_loop (suc n) s =
      let a = admit s.last s.pending s.heap s.next_index in
      turn (λ next. merge_loop n next) a.pending a.next_index a.last a.heap

  -- `sorted(sources, key=lambda source: source.lower_bound)`, which keeps the order of equal bounds
  unfoldable pub insert_source : MergeSource T F → List (MergeSource T F) → List (MergeSource T F)
  insert_source s [] = s ∷ []
  insert_source s (p ∷ ps) =
      if keys.bound_less p.lower_bound s.lower_bound then p ∷ insert_source s ps else s ∷ p ∷ ps

  unfoldable pub sort_sources : List (MergeSource T F) → List (MergeSource T F)
  unfolding insert_source
  sort_sources [] = []
  sort_sources (s ∷ ss) = insert_source s (sort_sources ss)

  -- `merge_rows_by_connection`; every turn yields a row, so that their number is fuel enough
  unfoldable pub merge_rows_by_connection : List (MergeSource T F) → List T × End
  unfolding merge_loop sort_sources tally_sources
  merge_rows_by_connection sources =
      merge_loop (suc (tally_sources (λ r. true) sources))
        (record { pending = sort_sources sources; heap = []; last = []; next_index = 0 })

-- ===== src/Merge/Tests.antt =====
-- The merge on two sources that overlap.
use greenfield.Base.{
  arith, ℕ, leb, ltb, Bool, true, false, ◌≡◌, ◌≢◌, refl, none, ◌==◌, String, List, [], ◌∷◌,
}
use greenfield.Merge.{
  out_of_fuel, Keys, MergeSource, tally, tally_sources, merge_rows_by_connection,
}
use greenfield.Merge.Yields.{IsOrder, IsAscending}
use greenfield.Merge.Order.{merge-IsAscending}
use greenfield.Merge.Rows.{tally-merge, merge-ends}

-- A row is its connection and its time of receipt.
abbrev Row : Type 0
Row = String × ℕ

abbrev by_time : Keys Row ℕ ℕ ℕ
by_time = record {
  connection_id = λ r. r.0;
  order_key = λ r. r.1;
  fields = λ r. r.1 ∷ [];
  tie_break = none;
  equal = ◌==◌;
  less = ltb;
  at_most = leb;
  key_less = ltb;
  first = λ k. k;
  bound_leb = leb;
  bound_less = ltb;
}

abbrev overlapping : List (MergeSource Row ℕ)
overlapping =
    record { lower_bound = 3; rows = ("new", 3) ∷ ("new", 5) ∷ [] }
    ∷ record { lower_bound = 1; rows = ("old", 1) ∷ ("old", 4) ∷ [] }
    ∷ []

abbrev merged : List Row
merged = ("old", 1) ∷ ("new", 3) ∷ ("old", 4) ∷ ("new", 5) ∷ []

abbrev is_late : Row → Bool
is_late r = leb 4 r.1

tally-merge_example : tally is_late merged ≡ tally_sources is_late overlapping
unfolding merge_rows_by_connection greenfield.Base.lookup greenfield.Base.insert
tally-merge_example = tally-merge by_time is_late overlapping merged refl

merge-ends_example : (merge_rows_by_connection by_time overlapping).1 ≢ out_of_fuel
merge-ends_example = merge-ends by_time overlapping

by_time-IsOrder : IsOrder by_time
by_time-IsOrder = record {
  asym = λ a b h. ground arith;
  trans = λ a b c h k. ground arith;
  first_leb = λ a b h. ground arith;
  bound_trans = λ a b c h k. ground arith;
  bound_yes = λ a b h. ground arith;
  bound_no = λ a b h. ground arith;
}

merge-IsAscending_example : IsAscending by_time (merge_rows_by_connection by_time overlapping).0
merge-IsAscending_example = merge-IsAscending by_time by_time-IsOrder overlapping (
  record { ascending = ((refl, tt), (tt, tt)); bounded = (refl, (refl, tt)) },
  (record { ascending = ((refl, tt), (tt, tt)); bounded = (refl, (refl, tt)) }, tt),
)

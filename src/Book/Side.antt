-- ===== src/Book/Side.antt =====
-- One side of an order book, as all the venues' replays keep it: a dictionary from price to size
-- (`_levels`, `_apply_levels`, `_validate_book` of src/data/bybit_replay.py, okx_replay.py and
-- binance_replay.py).
pub mod Laws
pub mod Levels
use greenfield.Base.{
  pos, ltb_ℤ, leb_ℤ, Bool, not, ◌&&◌, ◌||◌, Option, none, some, List, [], ◌∷◌, Decimal, dec_eq,
  dec_leb, dec_ltb, Result, ok, err, ◌>>=◌, ◌>>◌, or_raise, raise_if, if◌then◌else◌,
}
use greenfield.Book.Event.{
  Error, replay_error, invalid_order_book, Json, array, Items, nil, cons, Python,
}

abbrev pub Side : Type 0
Side = List (Decimal × Decimal)

-- `side.get(price)`: keys are equal as numbers.
unfoldable pub size_at : Decimal → Side → Option Decimal
size_at p [] = none
size_at p ((q, s) ∷ side) = if dec_eq q p then some s else size_at p side

-- `side[price] = size`
unfoldable pub put : Decimal → Decimal → Side → Side
put p s [] = (p, s) ∷ []
put p s ((q, t) ∷ side) = if dec_eq q p then (q, s) ∷ side else (q, t) ∷ put p s side

-- `side.pop(price, None)`
unfoldable pub pop : Decimal → Side → Side
pop p [] = []
pop p ((q, t) ∷ side) = if dec_eq q p then side else (q, t) ∷ pop p side

abbrev pub is_zero : Decimal → Bool
is_zero s = leb_ℤ s.units (pos 0) && leb_ℤ (pos 0) s.units

-- one turn of the loop of `_apply_levels`
unfoldable pub apply_level : Side → Decimal × Decimal → Side
apply_level side (p, s) = if is_zero s then pop p side else put p s side

-- `_apply_levels`
unfoldable pub apply_levels : Side → List (Decimal × Decimal) → Side
apply_levels side [] = side
apply_levels side (l ∷ ls) = apply_levels (apply_level side l) ls

-- `{price: size for price, size in levels if size > 0}`
abbrev add_positive : Side → Decimal × Decimal → Side
add_positive side (p, s) = if ltb_ℤ (pos 0) s.units then put p s side else side

unfoldable pub from_levels : Side → List (Decimal × Decimal) → Side
from_levels side [] = side
from_levels side (l ∷ ls) = from_levels (add_positive side l) ls

-- `max(side)` and `min(side)` of a side that begins with the price `p`
unfoldable pub max_price : Decimal → Side → Decimal
max_price p [] = p
max_price p ((q, s) ∷ side) = max_price (if dec_ltb p q then q else p) side

unfoldable pub min_price : Decimal → Side → Decimal
min_price p [] = p
min_price p ((q, s) ∷ side) = min_price (if dec_ltb q p then q else p) side

-- `_validate_book`
unfoldable pub validate_book : Side → Side → Result Error (Unit {0})
validate_book [] asks = err invalid_order_book
validate_book (b ∷ bids) [] = err invalid_order_book
validate_book ((p, s) ∷ bids) ((q, t) ∷ asks) =
    raise_if (dec_leb (min_price q asks) (max_price p bids)) invalid_order_book

-- The venues differ in how long a level is: exactly two fields, or at least two.
pub data Width : Type 0 where
  exactly_two at_least_two : Width

-- `level[0]` and `level[1]` of a level of the right length
abbrev parts_of : Width → Items → Option (Json × Json)
parts_of exactly_two (cons p (cons s nil)) = some (p, s)
parts_of exactly_two _ = none
parts_of at_least_two (cons p (cons s rest)) = some (p, s)
parts_of at_least_two _ = none

abbrev parts : Width → Json → Option (Json × Json)
parts w (array xs) = parts_of w xs
parts w _ = none

-- the checks that `_levels` makes of one level
unfoldable pub level : Python → Width → Json → Result Error (Decimal × Decimal)
level py w j = do
  (p, s) ← or_raise (parts w j) replay_error
  price ← or_raise (py.to_decimal p) replay_error
  size ← or_raise (py.to_decimal s) replay_error
  raise_if
      (not price.finite || not size.finite || leb_ℤ price.units (pos 0) || ltb_ℤ size.units (pos 0))
      replay_error
  ok (price, size)

unfoldable pub levels_of : Python → Width → Items → Result Error (List (Decimal × Decimal))
unfolding level
levels_of py w nil = ok []
levels_of py w (cons j js) = do l ← level py w j; ls ← levels_of py w js; ok (l ∷ ls)

-- `_levels`
unfoldable pub levels : Python → Width → Json → Result Error (List (Decimal × Decimal))
levels py w (array xs) = levels_of py w xs
levels py w _ = err replay_error

-- ===== src/Base/Json.antt =====
-- JSON values as Python's `json` reads and writes them, and the calls of Python's library on texts
-- and times. Nothing reads the order of the keys of an object, which `sort_keys` changes; the model
-- leaves it as it is.
use Prim.Native.Nat.{ℕ, ◌<◌}
use Prim.Native.String.{String}
use mathlib.Core.Path.{◌≡◌, refl, ap}
use mathlib.Core.Bool.{Bool, true, false}
use mathlib.Core.Option.{Option, none, some}
use mathlib.Core.List.{List, [], ◌∷◌}
use native.Mathlib.Omega.{arith}
use greenfield.Base.Tests.{if◌then◌else◌}
use greenfield.Base.Int.{ℤ}
use greenfield.Base.Text.{◌=$◌}
use greenfield.Base.Times.{Datetime}

mutual
  pub data Value (A : Type 0) : Type 0 where
    null : Value A
    boolean : Bool → Value A
    integer : ℤ → Value A
    real : A → Value A
    text : String → Value A
    array : Items A → Value A
    object : Fields A → Value A

  pub data Items (A : Type 0) : Type 0 where
    empty : Items A
    item : Value A → Items A → Items A

  pub data Fields (A : Type 0) : Type 0 where
    end : Fields A
    field : String → Value A → Fields A → Fields A

-- `value[key]`, where `none` is a KeyError
unfoldable pub field_of : {A : Type 0} → String → Fields A → Option (Value A)
field_of k end = none
field_of k (field j v fs) = if j =$ k then some v else field_of k fs

-- `{key: item for key, item in value.items() if key != k}`
unfoldable pub without_field : {A : Type 0} → String → Fields A → Fields A
without_field k end = end
without_field k (field j v fs) =
    let rest = without_field k fs in if j =$ k then rest else field j v rest

unfoldable pub items_of : {A : Type 0} → List (Value A) → Items A
items_of [] = empty
items_of (v ∷ vs) = item v (items_of vs)

unfoldable pub list_of : {A : Type 0} → Items A → List (Value A)
list_of empty = []
list_of (item v vs) = v ∷ list_of vs

pub list_of-items_of : {A : Type 0} (vs : List (Value A)) → list_of (items_of vs) ≡ vs
unfolding list_of items_of
list_of-items_of [] = refl
list_of-items_of (v ∷ vs) = ap (◌∷◌ v) (list_of-items_of vs)

-- Texts of type T. `none` stands for an exception.
pub record Codec (A T : Type 0) : Type 0 where
  -- `json.dumps(value, sort_keys=True, separators=(",", ":"))` and `json.loads`
  pub dumps : Value A → T
  pub loads : T → Option (Value A)
  -- `hashlib.sha256(text.encode()).hexdigest()`
  pub sha256 : T → String
  -- `moment.isoformat()` of a UTC time, and `datetime.fromisoformat(text.replace("Z", "+00:00"))`
  pub isoformat : ℕ → String
  pub fromisoformat : String → Option Datetime
  -- `day.isoformat()`, and `date.fromisoformat`
  pub day_isoformat : ℕ → String
  pub day_fromisoformat : String → Option ℕ
  -- `float(n)`
  pub to_float : ℤ → A

-- What Python documents of these calls, for times up to the end of the year 9999.
pub record Readable {A T : Type 0} (C : Codec A T) : Type 0 where
  pub loads-dumps : (v : Value A) → C.loads (C.dumps v) ≡ some v
  pub time_read :
      (t : ℕ)
      → t < 315537897600000000
      → C.fromisoformat (C.isoformat t) ≡ some (record { aware = true; micros = t })
  pub day_read : (d : ℕ) → d < 3652059 → C.day_fromisoformat (C.day_isoformat d) ≡ some d
  pub day_text : (d : ℕ) → (C.day_isoformat d =$ "") ≡ false

pub time_read-aware :
    {A T : Type 0} (C : Codec A T)
    → Readable C
    → (d : Datetime) → d.aware ≡ true
    → d.micros < 315537897600000000
    → C.fromisoformat (C.isoformat d.micros) ≡ some d
time_read-aware C readable d aware early = ground (arith, readable.time_read d.micros early)

-- ===== src/Base/Text.antt =====
-- Texts that the program compares as a whole, and the blank test `not text.strip()`.
use Prim.Native.Nat.{ℕ, Ordering}
use Prim.Native.Char.{code}
use Prim.Native.String.{String, compare, count, ◌++◌ as append}
use mathlib.Core.Path.{◌≡◌, refl}
use mathlib.Core.Bool.{Bool, true, false, ◌&&◌, ◌||◌}
use mathlib.Core.Logic.{◌↔◌}
use mathlib.Core.Option.{Option, none, some}
use text.Mathlib.Text.{◌==◌ as str_eq}
use text.Mathlib.TextEquality.{eq_iff}
use greenfield.Base.Tests.{leb, ◌==◌}

infix 50 ◌=$◌
abbrev pub ◌=$◌ : String → String → Bool
a =$ b = str_eq a b

-- `a + b`
abbrev pub concat : String → String → String
concat a b = append a b

-- `a < b`
abbrev pub text_ltb : String → String → Bool
text_ltb a b = elim (compare a b) [ Ordering.lt ↦ true | _ ↦ false ]

pub =$_iff : (a b : String) → ((a =$ b) ≡ true) ↔ (a ≡ b)
=$_iff a b = eq_iff a b

-- The code points that `str.strip` removes.
unfoldable pub is_space : ℕ → Bool
is_space c =
    (leb 9 c && leb c 13)
    || (leb 28 c && leb c 32)
    || c == 133
    || c == 160
    || c == 5760
    || (leb 8192 c && leb c 8202)
    || c == 8232
    || c == 8233
    || c == 8239
    || c == 8287
    || c == 12288

-- `not text.strip()`
unfoldable pub is_blank : String → Bool
unfolding is_space
is_blank String.[] = true
is_blank (String.◌∷◌ c s) = is_space (code c) && is_blank s

-- `None != None` and so on: equality of optional texts.
abbrev pub opt_text_eq : Option String → Option String → Bool
opt_text_eq none none = true
opt_text_eq none (some b) = false
opt_text_eq (some a) none = false
opt_text_eq (some a) (some b) = a =$ b

pub text_refl : (a : String) → (a =$ a) ≡ true
text_refl a = (=$_iff a a).1 refl

-- `len(text)`
abbrev pub string_length : String → ℕ
string_length t = count t

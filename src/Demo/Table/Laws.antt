-- ===== src/Demo/Table/Laws.antt =====
-- Reads of the trades after a write, and writes to a constrained table.
use greenfield.Base.{
  ℕ, ◌+◌, true, false, ◌≡◌, refl, ◌≢◌, some, String, ◌=$◌, =$_iff, [], ◌∷◌, ◌++◌, ok, none, arith,
  All, any, Bool-cases, some_eq, length, inl, inr, ap, sym, if◌then◌else◌,
}
use mathlib.Core.Path.{subst}
use greenfield.Demo.Trade.{AutonomousTradeRecord}
use greenfield.Demo.Table.{
  Trades, is_active, fetch, update_where, clashes, is_unique, active_rows, fetch_active, one_row,
}

pub fetch-trade_id :
    (id : String) (ts : Trades) (t : AutonomousTradeRecord) → fetch id ts ≡ some t → t.trade_id ≡ id
unfolding fetch
fetch-trade_id id [] t h = ground arith
fetch-trade_id id (u ∷ ts) t h = ground (arith, =$_iff u.trade_id id, fetch-trade_id id ts t)

-- A row that does not clash with a row of the identity is not touched.
untouched :
    (id : String) (f : AutonomousTradeRecord → AutonomousTradeRecord) (t : AutonomousTradeRecord)
    (ts : Trades)
    → t.trade_id ≡ id
    → any (λ u. clashes t u) ts ≡ false
    → update_where id f ts ≡ ts
unfolding update_where clashes
untouched id f t [] e h = refl
untouched id f t (u ∷ ts) e h =
    let other : (u.trade_id =$ id) ≡ false =
      ground (arith, =$_iff u.trade_id id, =$_iff t.trade_id u.trade_id) in
    rw other (ap (◌∷◌ u) (untouched id f t ts e (ground arith)))

module _ (id : String) (f : AutonomousTradeRecord → AutonomousTradeRecord)
    (keep : (u : AutonomousTradeRecord) → (f u).trade_id ≡ u.trade_id) where
  pub fetch-update_where :
      (ts : Trades) (t : AutonomousTradeRecord)
      → fetch id ts ≡ some t
      → fetch id (update_where id f ts) ≡ some (f t)
  unfolding fetch update_where
  fetch-update_where [] t h = ground arith
  fetch-update_where (u ∷ ts) t h = elim (Bool-cases (u.trade_id =$ id)) [
    | inl same ↦
        let e : ((f u).trade_id =$ id) ≡ true = rw (keep u) same in
        rw (same, e) (ap (λ x. some (f x)) (some_eq u t (rw same at h)))
    | inr other ↦ rw (other, other) (fetch-update_where ts t (rw other at h))
  ]

  pub fetch-update_where_ne :
      (j : String) (ts : Trades) → j ≢ id → fetch j (update_where id f ts) ≡ fetch j ts
  unfolding fetch update_where
  fetch-update_where_ne j [] h = refl
  fetch-update_where_ne j (u ∷ ts) h = elim (Bool-cases (u.trade_id =$ id)) [
    | inl same ↦
        let apart : (u.trade_id =$ j) ≡ false =
          ground (arith, =$_iff u.trade_id id, =$_iff u.trade_id j) in
        let moved : ((f u).trade_id =$ j) ≡ false = rw (keep u) apart in
        rw (same, moved, apart) (fetch-update_where_ne j ts h)
    | inr other ↦
        rw (other) (ap (λ r. if u.trade_id =$ j then some u else r) (fetch-update_where_ne j ts h))
  ]

-- Only the row that `fetch` finds changes.
module _ (id : String) (f : AutonomousTradeRecord → AutonomousTradeRecord)
    (t : AutonomousTradeRecord) where
  pub All-update_where {ℓ} :
      (P : AutonomousTradeRecord → Type ℓ) (ts : Trades)
      → is_unique ts ≡ true
      → fetch id ts ≡ some t
      → P (f t)
      → All P ts
      → All P (update_where id f ts)
  unfolding fetch update_where is_unique
  All-update_where P [] u e p h = h
  All-update_where P (r ∷ ts) u found p h = elim (Bool-cases (r.trade_id =$ id)) [
    | inl same ↦
        let e : r ≡ t = some_eq r t (rw same at found) in
        let rest : update_where id f ts ≡ ts =
          untouched id f r ts ((=$_iff r.trade_id id).0 same) (ground arith) in
        rw (same, rest) (subst (λ x. P (f x)) (sym e) p, h.1)
    | inr other ↦ rw other (h.0, All-update_where P ts (ground arith) (rw other at found) p h.1)
  ]

-- The number of active rows.
abbrev pub active_one : AutonomousTradeRecord → ℕ
active_one t = if is_active t then 1 else 0

abbrev pub count_active : Trades → ℕ
count_active [] = 0
count_active (t ∷ ts) = active_one t + count_active ts

pub count_active-update_where :
    (id : String) (f : AutonomousTradeRecord → AutonomousTradeRecord) (t : AutonomousTradeRecord)
    (ts : Trades)
    → is_unique ts ≡ true
    → fetch id ts ≡ some t
    → count_active (update_where id f ts) + active_one t ≡ count_active ts + active_one (f t)
unfolding fetch update_where is_unique
count_active-update_where id f t [] u h = ground arith
count_active-update_where id f t (r ∷ ts) u h = elim (Bool-cases (r.trade_id =$ id)) [
  | inl same ↦
      let e : r ≡ t = some_eq r t (rw same at h) in
      let rest : update_where id f ts ≡ ts =
        untouched id f r ts ((=$_iff r.trade_id id).0 same) (ground arith) in
      rw (same, rest, ← e) (omega arith)
  | inr other ↦
      rw other (omega (arith, count_active-update_where id f t ts (ground arith) (rw other at h)))
]

pub length-active_rows : (ts : Trades) → length (active_rows ts) ≡ count_active ts
unfolding active_rows
length-active_rows [] = refl
length-active_rows (t ∷ ts) = ground (arith, length-active_rows ts)

pub count_active-append :
    (ts us : Trades) → count_active (ts ++ us) ≡ count_active ts + count_active us
count_active-append [] us = omega arith
count_active-append (t ∷ ts) us = omega (arith, count_active-append ts us)

none_of_one_row : {n : ℕ} (rows : Trades) → length rows ≡ n → one_row rows ≡ ok none → n ≡ 0
none_of_one_row [] e h = omega arith
none_of_one_row (t ∷ []) e h = ground arith
none_of_one_row (t ∷ u ∷ rows) e h = ground arith

-- `_fetch_active` finds no row exactly when none is active, and raises on more than one.
pub fetch_active-count : (ts : Trades) → fetch_active ts ≡ ok none → count_active ts ≡ 0
unfolding fetch_active
fetch_active-count ts h = none_of_one_row (active_rows ts) (length-active_rows ts) h

pub fetch-append :
    (id : String) (ts us : Trades) (t : AutonomousTradeRecord)
    → fetch id ts ≡ some t
    → fetch id (ts ++ us) ≡ some t
unfolding fetch
fetch-append id [] us t h = ground arith
fetch-append id (u ∷ ts) us t h = ground (arith, fetch-append id ts us t)

pub fetch-append_none :
    (id : String) (ts : Trades) (t : AutonomousTradeRecord)
    → fetch id ts ≡ none
    → t.trade_id ≡ id
    → fetch id (ts ++ t ∷ []) ≡ some t
unfolding fetch
fetch-append_none id [] t h e = ground (arith, =$_iff t.trade_id id)
fetch-append_none id (u ∷ ts) t h e = ground (arith, fetch-append_none id ts t)

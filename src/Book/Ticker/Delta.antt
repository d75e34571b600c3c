-- ===== src/Book/Ticker/Delta.antt =====
-- The deltas of `BybitTickerState` (src/data/bybit_replay.py).
use greenfield.Base.{
  subst, ℤ, leb_ℤ, ◌<ℤ◌, Bool, true, false, not, ◌&&◌, ◌≡◌, refl, ap, ◌∙◌, Option, none, some,
  String, ◌=$◌, =$_iff, ok, Bool-cases, inl, inr, arith, if◌then◌else◌,
}
use greenfield.Book.Event.{Json, Fields, end, field, get, get_or, Python, RawMarketEvent}
use greenfield.Book.Bybit.{is_text}
use greenfield.Book.Ticker.{
  BybitTickerState, set, update, TickerMessage, read_ticker, advance_ticker, accept_ticker,
  apply_ticker,
}

unfoldable pub has : String → Fields → Bool
has k end = false
has k (field j v fs) = if j =$ k then true else has k fs

-- No key stands twice, as in every dictionary.
unfoldable pub has_unique_keys : Fields → Bool
has_unique_keys end = true
has_unique_keys (field k v fs) = not (has k fs) && has_unique_keys fs

get-set :
    (j k : String) (v : Json) (fs : Fields) → get j (set k v fs) ≡ (if k =$ j then v else get j fs)
unfolding get set
get-set j k v end = refl
get-set j k v (field i w fs) = ground (arith, =$_iff k j, =$_iff i k, =$_iff i j, get-set j k v fs)

get_or-absent : (j : String) (d : Json) (fs : Fields) → has j fs ≡ false → get_or j d fs ≡ d
unfolding get_or has
get_or-absent j d end h = refl
get_or-absent j d (field i w fs) h = ground (arith, get_or-absent j d fs)

get-update :
    (j : String) (fs gs : Fields)
    → has_unique_keys gs ≡ true
    → get j (update fs gs) ≡ get_or j (get j fs) gs
unfolding update get_or has_unique_keys
get-update j fs end h = refl
get-update j fs (field k v gs) h =
    let rest = get-update j (set k v fs) gs (ground arith) in
    elim (Bool-cases (k =$ j)) [
      | inl same ↦
          let e : k ≡ j = (=$_iff k j).0 same in
          let written : get j (set k v fs) ≡ v = ground (arith, get-set j k v fs) in
          let absent : has k gs ≡ false = ground arith in
          rw same (
            rest
            ∙ ap (λ d. get_or j d gs) written
            ∙ get_or-absent j v gs (subst (λ i. has i gs ≡ false) e absent))
      | inr other ↦
          let kept : get j (set k v fs) ≡ get j fs = ground (arith, get-set j k v fs) in
          rw other (rest ∙ ap (λ d. get_or j d gs) kept)
    ]

advance_ticker-ok :
    (m : TickerMessage) (t t' : BybitTickerState) (o : Option Fields) (n : Option ℤ)
    → advance_ticker m t o n ≡ (ok tt, t')
    → (fs : Fields) × (s : ℤ) × (o ≡ some fs)
      × (n ≡ some s)
      × (s <ℤ m.sequence)
      × (t' ≡ record t { data_fields = some (update fs m.data_fields); sequence = some m.sequence })
advance_ticker-ok m t t' (some fs) (some s) h = elim (Bool-cases (leb_ℤ m.sequence s)) [
  | inl back ↦ absurd (ground arith)
  | inr onwards ↦ (fs, s, refl, refl, ground arith, ground arith)
]
advance_ticker-ok m t t' (some fs) none h = absurd (ground arith)
advance_ticker-ok m t t' none n h = absurd (ground arith)

ticker_parts :
    (t t' : BybitTickerState) (fs : Fields) (n : ℤ)
    → t' ≡ record t { data_fields = some fs; sequence = some n }
    → (t'.sequence ≡ some n) × (t'.data_fields ≡ some fs)
ticker_parts t t' fs n w = (ap (λ x. x.sequence) w, ap (λ x. x.data_fields) w)

-- When a Bybit ticker accepts an event whose message is not a snapshot and has no key twice in its
-- data, then it had data and a sequence below that of the message, it is at the sequence of the
-- message afterwards, and each of its keys has the value of the message, or its old value if the
-- message lacks the key.
pub apply_ticker-delta :
    (py : Python) (e : RawMarketEvent) (m : TickerMessage) (t t' : BybitTickerState) (k : String)
    → read_ticker py e ≡ ok m
    → is_text "snapshot" m.message_type ≡ false
    → has_unique_keys m.data_fields ≡ true
    → apply_ticker py e t ≡ (ok tt, t')
    → (fs gs : Fields) × (s : ℤ) × (t.data_fields ≡ some fs)
      × (t.sequence ≡ some s)
      × (s <ℤ m.sequence)
      × (t'.sequence ≡ some m.sequence)
      × (t'.data_fields ≡ some gs)
      × (get k gs ≡ get_or k (get k fs) m.data_fields)
unfolding apply_ticker accept_ticker
apply_ticker-delta py e m t t' k read other unique h =
    elim (Bool-cases (is_text "delta" m.message_type)) [
      | inr unknown ↦ absurd (ground arith)
      | inl change ↦
          let (fs, s, a, b, later, w) =
            advance_ticker-ok m t t' t.data_fields t.sequence (ground arith) in
          let parts = ticker_parts t t' (update fs m.data_fields) m.sequence w in
          (
            fs,
            update fs m.data_fields,
            s,
            a,
            b,
            later,
            parts.0,
            parts.1,
            get-update k fs m.data_fields unique,
          )
    ]

-- ===== src/Book/Binance/Reads.antt =====
-- What the book and the gate of a Binance session take from an event.
use greenfield.Base.{
  ℤ, ltb_ℤ, leb_ℤ, Bool, true, false, ◌≡◌, ap, sym, Option, none, some, String, [], ok,
  Result-cases, Bool-cases, inl, inr, arith, >>=-eq-ok, ◌>>=◌,
}
use greenfield.Book.Event.{
  required_int, metadata_int, required_int-metadata_int, Json, get, Python, RawMarketEvent, payload,
}
use greenfield.Book.Side.{exactly_two, levels, apply_levels, from_levels}
use greenfield.Book.Replay.{SequencedBook, is_ready, install}
use greenfield.Book.Replay.Sound.{install-written}
use greenfield.Book.Binance.{
  BinanceDepthSequenceGate, Update, read_update, stream_message, admit, receive, receive_or_raise,
  follows, gate_apply, load_snapshot, apply_delta, book_snapshot, book_delta,
}

load_snapshot-sequence :
    (py : Python) (bids asks : Json) (n : ℤ) (b b' : SequencedBook)
    → load_snapshot py bids asks n b ≡ ok b'
    → b'.sequence ≡ some n
unfolding load_snapshot
load_snapshot-sequence py bids asks n b b' h =
    let (xs, _, h₁) = >>=-eq-ok (levels py exactly_two bids) _ h in
    let (ys, _, h₂) = >>=-eq-ok (levels py exactly_two asks) _ h₁ in
    ap (λ x. x.sequence) (install-written b b' (from_levels [] xs) (from_levels [] ys) n h₂).0

pub apply_delta-sequence :
    (py : Python) (bids asks : Json) (n : ℤ) (b b' : SequencedBook)
    → apply_delta py bids asks n b ≡ ok b'
    → b'.sequence ≡ some n
unfolding apply_delta
apply_delta-sequence py bids asks n b b' h = elim (Bool-cases (is_ready b)) [
  | inr early ↦ absurd (ground arith)
  | inl ready ↦
      let h₀ : (levels py exactly_two bids >>= λ xs. levels py exactly_two asks >>= λ ys.
      install b (apply_levels b.bids xs) (apply_levels b.asks ys) n)
          ≡ ok b' =
        ground arith in
      let (xs, _, h₁) = >>=-eq-ok (levels py exactly_two bids) _ h₀ in
      let (ys, _, h₂) = >>=-eq-ok (levels py exactly_two asks) _ h₁ in
      ap (λ x. x.sequence)
        (install-written b b' (apply_levels b.bids xs) (apply_levels b.asks ys) n h₂).0
]

pub book_snapshot-sequence :
    (py : Python) (e : RawMarketEvent) (b b' : SequencedBook) (n : ℤ)
    → book_snapshot py e b ≡ ok (b', n)
    → b'.sequence ≡ some n
unfolding book_snapshot
book_snapshot-sequence py e b b' n h = elim (Result-cases (payload py e)) [
  | inr (x, bad) ↦ absurd (ground arith)
  | inl (fs, ep) ↦ elim (Result-cases (required_int py (get "lastUpdateId" fs))) [
    | inr (x, bad) ↦ absurd (ground arith)
    | inl (m, em) ↦ elim (Result-cases (load_snapshot py (get "bids" fs) (get "asks" fs) m b)) [
      | inr (x, bad) ↦ absurd (ground arith)
      | inl (c, ec) ↦
          let same : m ≡ n = ground arith in
          let kept : c ≡ b' = ground arith in
          rw (sym same, sym kept)
            (load_snapshot-sequence py (get "bids" fs) (get "asks" fs) m b c ec)
    ]
  ]
]

-- What the session reads for the book is what the gate has read.
pub book_delta-read :
    (py : Python) (e : RawMarketEvent) (u : Update) (b : SequencedBook)
    → read_update py e ≡ ok u
    → book_delta py e b ≡ apply_delta py (get "b" u.message) (get "a" u.message) u.final_update b
unfolding read_update book_delta
book_delta-read py e u b h = elim (Result-cases (payload py e)) [
  | inr (x, bad) ↦ absurd (ground arith)
  | inl (m, em) ↦ elim (Result-cases (stream_message m)) [
    | inr (x, bad) ↦ absurd (ground arith)
    | inl (fs, ef) ↦ elim (Result-cases (metadata_int py (get "U" fs))) [
      | inr (x, bad) ↦ absurd (ground arith)
      | inl (s, es) ↦ elim (Result-cases (metadata_int py (get "u" fs))) [
        | inr (x, bad) ↦ absurd (ground arith)
        | inl (p, ep) ↦ elim (Result-cases (metadata_int py (get "pu" fs))) [
          | inr (x, bad) ↦ absurd (ground arith)
          | inl (q, eq) ↦ let again = required_int-metadata_int py (get "u" fs) p ep in ground arith
        ]
      ]
    ]
  ]
]

-- What the gate does when it raises nothing.
admit-ok :
    (u : Update) (g g' : BinanceDepthSequenceGate) (n : ℤ) (a : Bool)
    → admit u g n ≡ (ok a, g')
    → (a ≡ true → g'.update_id ≡ some u.final_update) × (a ≡ false → g' ≡ g)
unfolding admit
admit-ok u g g' n a h = elim (Bool-cases (ltb_ℤ u.final_update u.first_update)) [
  | inl empty ↦ absurd (ground arith)
  | inr range ↦ elim (Bool-cases (leb_ℤ u.final_update n)) [
    | inl stale ↦ (ground arith, ground arith)
    | inr newer ↦ elim (Bool-cases (follows u g n)) [
      | inr gap ↦ absurd (ground arith)
      | inl next ↦ (ground arith, ground arith)
    ]
  ]
]

receive-ok :
    (py : Python) (e : RawMarketEvent) (g g' : BinanceDepthSequenceGate) (n : ℤ) (c : String)
    (a : Bool)
    → receive py e g n c ≡ (ok a, g')
    → (u : Update) × (read_update py e ≡ ok u)
      × (a ≡ true → g'.update_id ≡ some u.final_update)
      × (a ≡ false → g' ≡ g)
unfolding receive
receive-ok py e g g' n c a h = elim (Result-cases (read_update py e)) [
  | inr (x, bad) ↦ absurd (ground arith)
  | inl (u, good) ↦ let (p, q) = admit-ok u g g' n a (ground arith) in (u, good, p, q)
]

receive_or_raise-ok :
    (py : Python) (e : RawMarketEvent) (g g' : BinanceDepthSequenceGate) (n : Option ℤ)
    (c : Option String) (a : Bool)
    → receive_or_raise py e g n c ≡ (ok a, g')
    → (u : Update) × (read_update py e ≡ ok u)
      × (a ≡ true → g'.update_id ≡ some u.final_update)
      × (a ≡ false → g' ≡ g)
receive_or_raise-ok py e g g' (some n) (some c) a h = receive-ok py e g g' n c a h
receive_or_raise-ok py e g g' (some n) none a h = absurd (ground arith)
receive_or_raise-ok py e g g' none c a h = absurd (ground arith)

pub gate_apply-ok :
    (py : Python) (e : RawMarketEvent) (g g' : BinanceDepthSequenceGate) (a : Bool)
    → gate_apply py e g ≡ (ok a, g')
    → (u : Update) × (read_update py e ≡ ok u)
      × (a ≡ true → g'.update_id ≡ some u.final_update)
      × (a ≡ false → g' ≡ g)
unfolding gate_apply
gate_apply-ok py e g g' a h =
    receive_or_raise-ok py e g g' g.update_id g.connection_id a (ground arith)

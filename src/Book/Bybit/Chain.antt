-- ===== src/Book/Bybit/Chain.antt =====
-- The changes that a Bybit book accepts (src/data/bybit_replay.py).
use greenfield.Base.{
  >>=-eq-ok, ok_eq, subst, ℤ, pos, ◌+ℤ◌, ◌<ℤ◌, ltb_ℤ, leb_ℤ, true, false, ◌≡◌, refl, Option, none,
  some, [], ok, arith, Bool-cases, Result-cases, inl, inr, eq_of_parts, +ℤ_parts, ap, ◌∙◌,
}
use greenfield.Book.Event.{required_int, Fields, get, Python}
use greenfield.Book.Side.{Side, exactly_two, levels, apply_levels, from_levels, validate_book}
use greenfield.Book.Bybit.{
  object_of, BybitOrderBook, Message, is_ready, is_text, read_message, install, advance, accept,
  apply_message, delta,
}

-- A message that was accepted as a change of the book.
pub record Change (m : Message) (b b' : BybitOrderBook) : Type 0 where
  pub from : ℤ
  pub sequence : ℤ
  pub at_update : b.update_id ≡ some from
  pub at_sequence : b.sequence ≡ some sequence
  pub contiguous : m.update_id ≡ from +ℤ pos 1
  pub later : sequence <ℤ m.sequence
  pub ready : is_ready b ≡ true
  pub written : b' ≡ record b {
    bids = apply_levels b.bids m.bids;
    asks = apply_levels b.asks m.asks;
    update_id = some m.update_id;
    sequence = some m.sequence;
  }

install-written :
    (b b' : BybitOrderBook) (u s : ℤ) (bids asks : Side)
    → install b u s bids asks ≡ (ok tt, b')
    → b' ≡ record b { bids = bids; asks = asks; update_id = some u; sequence = some s }
unfolding install
install-written b b' u s bids asks h = elim (Result-cases (validate_book bids asks)) [
  | inl (done, valid) ↦ ground arith
  | inr (x, refused) ↦ absurd (ground arith)
]

advance-written :
    (m : Message) (b b' : BybitOrderBook) (u s : ℤ)
    → advance m b u s ≡ (ok tt, b')
    → (m.update_id ≡ u +ℤ pos 1)
      × (s <ℤ m.sequence)
      × (b' ≡ record b {
        bids = apply_levels b.bids m.bids;
        asks = apply_levels b.asks m.asks;
        update_id = some m.update_id;
        sequence = some m.sequence;
      })
unfolding advance
advance-written m b b' u s h = elim (Bool-cases (ltb_ℤ (u +ℤ pos 1) m.update_id)) [
  | inl gap ↦ absurd (ground arith)
  | inr there ↦ elim (Bool-cases (leb_ℤ m.update_id u)) [
    | inl back ↦ absurd (ground arith)
    | inr ahead ↦ elim (Bool-cases (leb_ℤ m.sequence s)) [
      | inl back ↦ absurd (ground arith)
      | inr onwards ↦ (
        eq_of_parts m.update_id (u +ℤ pos 1) (ground (arith, +ℤ_parts u (pos 1))),
        ground arith,
        install-written b b' m.update_id m.sequence (apply_levels b.bids m.bids)
            (apply_levels b.asks m.asks) (ground arith),
      )
    ]
  ]
]

delta-Change :
    (m : Message) (b b' : BybitOrderBook) (u s : Option ℤ)
    → b.update_id ≡ u
    → b.sequence ≡ s
    → is_ready b ≡ true
    → delta m b u s ≡ (ok tt, b')
    → Change m b b'
delta-Change m b b' (some u) (some s) eu es ready h =
    let (c, l, w) = advance-written m b b' u s h in
    record {
      from = u;
      sequence = s;
      at_update = eu;
      at_sequence = es;
      contiguous = c;
      later = l;
      ready = ready;
      written = w;
    }
delta-Change m b b' (some u) none eu es ready h = absurd (ground arith)
delta-Change m b b' none s eu es ready h = absurd (ground arith)

pub accept-Change :
    (m : Message) (b b' : BybitOrderBook)
    → is_text "snapshot" m.message_type ≡ false
    → accept m b ≡ (ok tt, b')
    → Change m b b'
unfolding accept
accept-Change m b b' other h = elim (Bool-cases (is_text "delta" m.message_type)) [
  | inr unknown ↦ absurd (ground arith)
  | inl change ↦ elim (Bool-cases (is_ready b)) [
    | inr early ↦ absurd (ground arith)
    | inl ready ↦ delta-Change m b b' b.update_id b.sequence refl refl ready (ground arith)
  ]
]

read_message-message_type :
    (py : Python) (message : Fields) (m : Message)
    → read_message py message ≡ ok m
    → m.message_type ≡ get "type" message
unfolding read_message
read_message-message_type py message m h =
    let (fs, _, h₁) = >>=-eq-ok (object_of (get "data" message)) _ h in
    let (u, _, h₂) = >>=-eq-ok (required_int py (get "u" fs)) _ h₁ in
    let (n, _, h₃) = >>=-eq-ok (required_int py (get "seq" fs)) _ h₂ in
    let (bids, _, h₄) = >>=-eq-ok (levels py exactly_two (get "b" fs)) _ h₃ in
    let (asks, _, h₅) = >>=-eq-ok (levels py exactly_two (get "a" fs)) _ h₄ in
    subst (λ x. x.message_type ≡ get "type" message) (ok_eq _ m h₅) refl

-- A message that is not a snapshot and is applied moves the update id of the book by one.
pub message-Next :
    (py : Python) (m : Fields) (b b' : BybitOrderBook)
    → is_text "snapshot" (get "type" m) ≡ false
    → apply_message py m b ≡ (ok tt, b')
    → (u : ℤ) × (b.update_id ≡ some u) × (b'.update_id ≡ some (u +ℤ pos 1))
unfolding apply_message
message-Next py m b b' other h = elim (Result-cases (read_message py m)) [
  | inr (x, bad) ↦ absurd (ground arith)
  | inl (r, good) ↦
      let t : r.message_type ≡ get "type" m = read_message-message_type py m r good in
      let c : Change r b b' = accept-Change r b b' (rw t other) (ground arith) in
      (c.from, c.at_update, ap (λ x. x.update_id) c.written ∙ ap some c.contiguous)
]

-- A snapshot that was accepted is what the book is at.
pub accept-snapshot :
    (m : Message) (b b' : BybitOrderBook)
    → is_text "snapshot" m.message_type ≡ true
    → accept m b ≡ (ok tt, b')
    → b'.update_id ≡ some m.update_id
unfolding accept
accept-snapshot m b b' first h =
    ap (λ x. x.update_id)
      (install-written b b' m.update_id m.sequence (from_levels [] m.bids) (from_levels [] m.asks)
        (ground arith))

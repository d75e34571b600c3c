-- ===== src/Book/Bybit/Sound.antt =====
-- The sides of a Bybit book after any messages (src/data/bybit_replay.py).
use greenfield.Base.{
  ℤ, pos, ◌+ℤ◌, ltb_ℤ, leb_ℤ, true, ◌≡◌, refl, Option, none, some, String, List, [], ◌∷◌, ok, err,
  All, arith, Bool-cases, Result-cases, inl, inr, is_some, >>=-eq-ok, ok_eq, subst, sym,
}
use greenfield.Book.Event.{required_int, Fields, get, Python}
use greenfield.Book.Side.{Side, exactly_two, levels, apply_levels, from_levels, validate_book}
use greenfield.Book.Side.Laws.{
  IsSide, IsLevel, Uncrossed, apply_levels-IsSide, from_levels-IsSide, validate_book-Uncrossed,
}
use greenfield.Book.Side.Levels.{levels-IsLevel}
use greenfield.Book.Bybit.{
  BybitOrderBook, Message, new_book, is_ready, is_text, read_message, install, advance, accept,
  apply_message, delta, object_of,
}

-- Prices and sizes are positive, no price is held twice, and a book that is ready has two sides, of
-- which every bid is below every ask, an update id and a sequence.
pub record IsSound (b : BybitOrderBook) : Type 0 where
  pub bids : IsSide b.bids
  pub asks : IsSide b.asks
  pub uncrossed : is_ready b ≡ true → Uncrossed b.bids b.asks
  pub sequenced : is_some b.update_id ≡ true → is_some b.sequence ≡ true

pub new_book-IsSound : (symbol : String) → IsSound (new_book symbol)
new_book-IsSound symbol = record {
  bids = tt;
  asks = tt;
  uncrossed = λ r. absurd (ground arith);
  sequenced = λ s. absurd (ground arith);
}

install-IsSound :
    (b : BybitOrderBook) (u s : ℤ) (bids asks : Side)
    → IsSound b
    → IsSide bids
    → IsSide asks
    → IsSound (install b u s bids asks).1
unfolding install
install-IsSound b u s bids asks v hb ha = elim (Result-cases (validate_book bids asks)) [
  | inr (e, refused) ↦
      let left : (install b u s bids asks).1 ≡ b = ground arith in subst IsSound (sym left) v
  | inl (done, valid) ↦
      let b' : BybitOrderBook = record b {
        bids = bids;
        asks = asks;
        update_id = some u;
        sequence = some s;
      } in
      let left : (install b u s bids asks).1 ≡ b' = ground arith in
      subst IsSound (sym left) (record {
        bids = hb;
        asks = ha;
        uncrossed = λ r. validate_book-Uncrossed bids asks valid;
        sequenced = λ r. refl;
      })
]

pub record IsMessage (m : Message) : Type 0 where
  pub bids : All IsLevel m.bids
  pub asks : All IsLevel m.asks

read_message-IsMessage :
    (py : Python) (message : Fields) (m : Message) → read_message py message ≡ ok m → IsMessage m
unfolding read_message
read_message-IsMessage py message m h =
    let (fs, _, h₁) = >>=-eq-ok (object_of (get "data" message)) _ h in
    let (u, _, h₂) = >>=-eq-ok (required_int py (get "u" fs)) _ h₁ in
    let (n, _, h₃) = >>=-eq-ok (required_int py (get "seq" fs)) _ h₂ in
    let (bids, eb, h₄) = >>=-eq-ok (levels py exactly_two (get "b" fs)) _ h₃ in
    let (asks, ea, h₅) = >>=-eq-ok (levels py exactly_two (get "a" fs)) _ h₄ in
    subst IsMessage (ok_eq _ m h₅) (record {
      bids = levels-IsLevel py exactly_two (get "b" fs) bids eb;
      asks = levels-IsLevel py exactly_two (get "a" fs) asks ea;
    })

advance-IsSound :
    (m : Message) (b : BybitOrderBook) (u s : ℤ)
    → IsMessage m
    → IsSound b
    → IsSound (advance m b u s).1
unfolding advance
advance-IsSound m b u s hm v =
    let kept =
      install-IsSound b m.update_id m.sequence (apply_levels b.bids m.bids)
        (apply_levels b.asks m.asks) v (apply_levels-IsSide b.bids m.bids hm.bids v.bids)
        (apply_levels-IsSide b.asks m.asks hm.asks v.asks) in
    let fresh = new_book-IsSound b.symbol in
    elim (Bool-cases (ltb_ℤ (u +ℤ pos 1) m.update_id)) [
      | inl gap ↦ rw gap fresh
      | inr there ↦ elim (Bool-cases (leb_ℤ m.update_id u)) [
        | inl back ↦ rw (there, back) fresh
        | inr ahead ↦ elim (Bool-cases (leb_ℤ m.sequence s)) [
          | inl back ↦ rw (there, ahead, back) fresh
          | inr onwards ↦ rw (there, ahead, onwards) kept
        ]
      ]
    ]

delta-IsSound :
    (m : Message) (b : BybitOrderBook) (u s : Option ℤ)
    → IsMessage m
    → IsSound b
    → IsSound (delta m b u s).1
delta-IsSound m b (some u) (some s) hm v = advance-IsSound m b u s hm v
delta-IsSound m b (some u) none hm v = v
delta-IsSound m b none s hm v = v

accept-IsSound :
    (m : Message) (b : BybitOrderBook) → IsMessage m → IsSound b → IsSound (accept m b).1
unfolding accept
accept-IsSound m b hm v =
    let fresh =
      install-IsSound b m.update_id m.sequence (from_levels [] m.bids) (from_levels [] m.asks) v
        (from_levels-IsSide [] m.bids hm.bids tt) (from_levels-IsSide [] m.asks hm.asks tt) in
    elim (Bool-cases (is_text "snapshot" m.message_type)) [
      | inl snapshot ↦ rw snapshot fresh
      | inr other ↦ elim (Bool-cases (is_text "delta" m.message_type)) [
        | inr unknown ↦ rw (other, unknown) v
        | inl change ↦ elim (Bool-cases (is_ready b)) [
          | inr early ↦ rw (other, change, early) v
          | inl ready ↦ rw (other, change, ready) (delta-IsSound m b b.update_id b.sequence hm v)
        ]
      ]
    ]

-- Every message leaves a sound book sound, whether it is accepted or refused.
pub apply_message-IsSound :
    (py : Python) (message : Fields) (b : BybitOrderBook)
    → IsSound b
    → IsSound (apply_message py message b).1
unfolding apply_message
apply_message-IsSound py message b v = elim (Result-cases (read_message py message)) [
  | inl (m, good) ↦
      let left : apply_message py message b ≡ accept m b = ground arith in
      subst (λ x. IsSound x.1) (sym left)
        (accept-IsSound m b (read_message-IsMessage py message m good) v)
  | inr (e, bad) ↦
      let left : apply_message py message b ≡ (err e, b) = ground arith in
      subst (λ x. IsSound x.1) (sym left) v
]

-- The book after any messages, those included that it refuses.
unfoldable pub feed : Python → List Fields → BybitOrderBook → BybitOrderBook
feed py [] b = b
feed py (m ∷ ms) b = feed py ms (apply_message py m b).1

feed-IsSound :
    (py : Python) (ms : List Fields) (b : BybitOrderBook) → IsSound b → IsSound (feed py ms b)
unfolding feed
feed-IsSound py [] b v = v
feed-IsSound py (m ∷ ms) b v =
    feed-IsSound py ms (apply_message py m b).1 (apply_message-IsSound py m b v)

-- After any sequence of messages on a new Bybit book, the refused ones included, if the book is
-- ready then both sides are there and every bid is below every ask.
pub feed-Uncrossed :
    (py : Python) (ms : List Fields) (symbol : String)
    → is_ready (feed py ms (new_book symbol)) ≡ true
    → Uncrossed (feed py ms (new_book symbol)).bids (feed py ms (new_book symbol)).asks
feed-Uncrossed py ms symbol ready =
    (feed-IsSound py ms (new_book symbol) (new_book-IsSound symbol)).uncrossed ready

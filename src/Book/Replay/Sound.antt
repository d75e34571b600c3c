-- ===== src/Book/Replay/Sound.antt =====
-- The books of a session of the OKX and Binance replays.
use greenfield.Base.{
  Bool-cases, subst, sym, ℤ, true, false, ◌≡◌, some, String, ◌=$◌, Dict, lookup, insert,
  lookup-insert, ok, Result-cases, inl, inr, arith, [],
}
use greenfield.Book.Side.{Side, validate_book}
use greenfield.Book.Side.Laws.{IsSide, Uncrossed, validate_book-Uncrossed}
use greenfield.Book.Replay.{SequencedBook, new_book, is_ready, install, or_default, book_of}

-- Prices and sizes are positive, no price is held twice, and in a book that is ready every bid is
-- below every ask.
pub record IsSound (b : SequencedBook) : Type 0 where
  pub bids : IsSide b.bids
  pub asks : IsSide b.asks
  pub uncrossed : is_ready b ≡ true → Uncrossed b.bids b.asks

pub new_book-IsSound : (symbol : String) → IsSound (new_book symbol)
new_book-IsSound symbol = record { bids = tt; asks = tt; uncrossed = λ r. absurd (ground arith) }

pub install-written :
    (b b' : SequencedBook) (bids asks : Side) (n : ℤ)
    → install b bids asks n ≡ ok b'
    → (b' ≡ record b { bids = bids; asks = asks; sequence = some n })
      × (validate_book bids asks ≡ ok tt)
unfolding install
install-written b b' bids asks n h = elim (Result-cases (validate_book bids asks)) [
  | inl (done, valid) ↦ (ground arith, ground arith)
  | inr (x, refused) ↦ absurd (ground arith)
]

pub install-IsSound :
    (b b' : SequencedBook) (bids asks : Side) (n : ℤ)
    → IsSide bids
    → IsSide asks
    → install b bids asks n ≡ ok b'
    → IsSound b'
install-IsSound b b' bids asks n hb ha h =
    let (w, valid) = install-written b b' bids asks n h in
    rw w (record { bids = hb; asks = ha; uncrossed = λ r. validate_book-Uncrossed bids asks valid })

module _ {V : Type 0} (k j : String) (v d : V) (m : Dict V) where
  pub or_default-insert-same : (k =$ j) ≡ true → or_default d (lookup j (insert k v m)) ≡ v
  or_default-insert-same e = ground (arith, lookup-insert k j v m)

  pub or_default-insert-other :
      (k =$ j) ≡ false → or_default d (lookup j (insert k v m)) ≡ or_default d (lookup j m)
  or_default-insert-other e = ground (arith, lookup-insert k j v m)

-- Every book of a session is sound.
abbrev pub AllSound : Dict SequencedBook → Type 0
AllSound books = (symbol : String) → IsSound (book_of symbol books)

pub none-AllSound : AllSound []
unfolding lookup
none-AllSound symbol = new_book-IsSound symbol

pub insert-AllSound :
    (symbol : String) (b : SequencedBook) (books : Dict SequencedBook)
    → IsSound b
    → AllSound books
    → AllSound (insert symbol b books)
insert-AllSound symbol b books hb hs j = elim (Bool-cases (symbol =$ j)) [
  | inl same ↦ subst IsSound (sym (or_default-insert-same symbol j b (new_book j) books same)) hb
  | inr other ↦
      subst IsSound (sym (or_default-insert-other symbol j b (new_book j) books other)) (hs j)
]

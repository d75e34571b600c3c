-- ===== src/Book/Binance/Agree.antt =====
-- The books and the gates of a Binance replay (src/data/binance_replay.py).
use greenfield.Base.{
  ℤ, Bool, true, false, ◌≡◌, refl, ap, sym, ◌∙◌, subst, some, String, ◌=$◌, =$_iff, text_refl, Dict,
  lookup, insert, List, [], ◌∷◌, ok, Result-cases, Bool-cases, inl, inr, arith, ok_eq,
}
use greenfield.Book.Event.{get, Python, RawMarketEvent}
use greenfield.Book.Replay.{
  SequencedBook, Session, new_session, counted, book_of, with_gate, new_book,
}
use greenfield.Book.Replay.Sound.{or_default-insert-same, or_default-insert-other}
use greenfield.Book.Binance.{
  BinanceDepthSequenceGate, new_gate, bootstrap, Update, read_update, gate_apply, book_snapshot,
  book_delta, after_snapshot, after_gate, gate_of, orderbook_apply, prepared, session_apply, replay,
}
use greenfield.Book.Binance.Reads.{
  book_snapshot-sequence, book_delta-read, gate_apply-ok, apply_delta-sequence,
}

-- The book and the gate of a symbol are at one update id.
abbrev pub AgreesAt : String → Dict SequencedBook → Dict BinanceDepthSequenceGate → Type 0
AgreesAt symbol books gates = (book_of symbol books).sequence ≡ (gate_of symbol gates).update_id

abbrev pub Agree : Session BinanceDepthSequenceGate → Type 0
Agree s = (symbol : String) → AgreesAt symbol s.books s.gates

book_delta-sequence :
    (py : Python) (e : RawMarketEvent) (u : Update) (b b' : SequencedBook)
    → read_update py e ≡ ok u
    → book_delta py e b ≡ ok b'
    → b'.sequence ≡ some u.final_update
book_delta-sequence py e u b b' good h =
    apply_delta-sequence py (get "b" u.message) (get "a" u.message) u.final_update b b'
      (sym (book_delta-read py e u b good) ∙ h)

-- Writing both at one symbol keeps the others as they were.
written-AgreesAt :
    (symbol j : String) (books : Dict SequencedBook) (gates : Dict BinanceDepthSequenceGate)
    (b : SequencedBook) (g : BinanceDepthSequenceGate)
    → b.sequence ≡ g.update_id
    → AgreesAt j books gates
    → AgreesAt j (insert symbol b books) (insert symbol g gates)
written-AgreesAt symbol j books gates b g same before = elim (Bool-cases (symbol =$ j)) [
  | inl this ↦ ground (
    arith,
    or_default-insert-same symbol j b (new_book j) books this,
    or_default-insert-same symbol j g (new_gate j) gates this,
  )
  | inr other ↦ ground (
    arith,
    or_default-insert-other symbol j b (new_book j) books other,
    or_default-insert-other symbol j g (new_gate j) gates other,
  )
]

gate-AgreesAt :
    (symbol j : String) (books : Dict SequencedBook) (gates : Dict BinanceDepthSequenceGate)
    (g : BinanceDepthSequenceGate)
    → g.update_id ≡ (gate_of symbol gates).update_id
    → AgreesAt j books gates
    → AgreesAt j books (insert symbol g gates)
gate-AgreesAt symbol j books gates g same before = elim (Bool-cases (symbol =$ j)) [
  | inl this ↦
      let e : symbol ≡ j = (=$_iff symbol j).0 this in
      let at : (gate_of j gates).update_id ≡ g.update_id =
        subst (λ k. (gate_of k gates).update_id ≡ g.update_id) e (sym same) in
      before
      ∙ at
      ∙ sym (ap (λ x. x.update_id) (or_default-insert-same symbol j g (new_gate j) gates this))
  | inr other ↦ ground (arith, or_default-insert-other symbol j g (new_gate j) gates other)
]

bootstrap-update_id :
    (n : ℤ) (c : String) (g g' : BinanceDepthSequenceGate)
    → bootstrap n c g ≡ ok g'
    → g'.update_id ≡ some n
unfolding bootstrap
bootstrap-update_id n c g g' h = ground arith

module _ (py : Python) (e : RawMarketEvent) (b : SequencedBook) (g : BinanceDepthSequenceGate)
    (s s' : Session BinanceDepthSequenceGate) where
  after_snapshot-Agree :
      after_snapshot e g s (book_snapshot py e b) ≡ (ok tt, s') → Agree s → Agree s'
  after_snapshot-Agree h before j = elim (Result-cases (book_snapshot py e b)) [
    | inr (x, bad) ↦ absurd (ground arith)
    | inl ((b', n), good) ↦ elim (Result-cases (bootstrap n e.connection_id g)) [
      | inr (x, bad) ↦ absurd (ground arith)
      | inl (g', started) ↦
          let books : s'.books ≡ insert e.symbol b' s.books = ground arith in
          let gates : s'.gates ≡ insert e.symbol g' s.gates = ground arith in
          let same =
            book_snapshot-sequence py e b b' n good
            ∙ sym (bootstrap-update_id n e.connection_id g g' started) in
          rw (books, gates) (written-AgreesAt e.symbol j s.books s.gates b' g' same (before j))
    ]
  ]

  after_gate-Agree :
      (g' : BinanceDepthSequenceGate) (a : Bool)
      → (gate_of e.symbol s.gates).update_id ≡ g.update_id
      → gate_apply py e g ≡ (ok a, g')
      → after_gate py e b (with_gate e.symbol g' s) (ok a) ≡ (ok tt, s')
      → Agree s
      → Agree s'
  after_gate-Agree g' false own applied h before j =
      let (u, good, taken, dropped) = gate_apply-ok py e g g' false applied in
      let books : s'.books ≡ s.books = ground arith in
      let gates : s'.gates ≡ insert e.symbol g' s.gates = ground arith in
      rw (books, gates)
        (gate-AgreesAt e.symbol j s.books s.gates g'
          (ap (λ x. x.update_id) (dropped refl) ∙ sym own) (before j))
  after_gate-Agree g' true own applied h before j =
      let (u, good, taken, dropped) = gate_apply-ok py e g g' true applied in
      elim (Result-cases (book_delta py e b)) [
        | inr (x, refused) ↦ absurd (ground arith)
        | inl (b', done) ↦
            let books : s'.books ≡ insert e.symbol b' s.books = ground arith in
            let gates : s'.gates ≡ insert e.symbol g' s.gates = ground arith in
            let same = book_delta-sequence py e u b b' good done ∙ sym (taken refl) in
            rw (books, gates) (written-AgreesAt e.symbol j s.books s.gates b' g' same (before j))
      ]

  orderbook_apply-Agree :
      (gate_of e.symbol s.gates).update_id ≡ g.update_id
      → orderbook_apply py e b g s ≡ (ok tt, s')
      → Agree s
      → Agree s'
  unfolding orderbook_apply
  orderbook_apply-Agree own h before = elim (Bool-cases (e.message_type =$ "snapshot")) [
    | inl snapshot ↦ after_snapshot-Agree (ground arith) before
    | inr delta ↦
        let out = gate_apply py e g in
        elim (Result-cases out.0) [
          | inr (x, refused) ↦ absurd (ground arith)
          | inl (a, passed) ↦
              let applied : out ≡ (ok a, out.1) = ground arith in
              after_gate-Agree out.1 a own applied (ground arith) before
        ]
  ]

prepared-Agree :
    (e : RawMarketEvent) (s : Session BinanceDepthSequenceGate)
    → Agree s
    → Agree (prepared e (book_of e.symbol s.books) (gate_of e.symbol s.gates) s)
unfolding counted
prepared-Agree e s before j =
    written-AgreesAt e.symbol j s.books s.gates (book_of e.symbol s.books)
      (gate_of e.symbol s.gates) (before e.symbol) (before j)

session_apply-Agree :
    (py : Python) (e : RawMarketEvent) (s s' : Session BinanceDepthSequenceGate)
    → session_apply py e s ≡ (ok tt, s')
    → Agree s
    → Agree s'
unfolding session_apply counted
session_apply-Agree py e s s' h before = elim (Bool-cases (e.exchange =$ "binance")) [
  | inr foreign ↦ absurd (ground arith)
  | inl venue ↦ elim (Bool-cases (e.channel =$ "orderbook")) [
    | inr other ↦
        let books : s'.books ≡ s.books = ground arith in
        let gates : s'.gates ≡ s.gates = ground arith in λ j. rw (books, gates) (before j)
    | inl book ↦
        let b : SequencedBook = book_of e.symbol s.books in
        let g : BinanceDepthSequenceGate = gate_of e.symbol s.gates in
        let own =
          ap (λ x. x.update_id)
            (or_default-insert-same e.symbol e.symbol g (new_gate e.symbol) s.gates
              (text_refl e.symbol)) in
        let step : orderbook_apply py e b g (prepared e b g s) ≡ (ok tt, s') = ground arith in
        orderbook_apply-Agree py e b g (prepared e b g s) s' own step (prepared-Agree e s before)
  ]
]

pub replay-Agree :
    (py : Python) (es : List RawMarketEvent) (s s' : Session BinanceDepthSequenceGate)
    → replay py es s ≡ ok s'
    → Agree s
    → Agree s'
unfolding replay
replay-Agree py [] s s' h before = rw (sym (ok_eq s s' h)) before
replay-Agree py (e ∷ es) s s' h before = elim (Result-cases (session_apply py e s).0) [
  | inr (x, refused) ↦ absurd (ground arith)
  | inl (done, applied) ↦
      let t = (session_apply py e s).1 in
      let step : session_apply py e s ≡ (ok tt, t) = ground arith in
      replay-Agree py es t s' (ground arith) (session_apply-Agree py e s t step before)
]

pub new_session-Agree : Agree new_session
unfolding lookup
new_session-Agree symbol = refl

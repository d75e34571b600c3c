-- ===== src/Book/Okx/Agree.antt =====
-- The books and the gates of an OKX replay (src/data/okx_replay.py, src/data/okx_adapter.py).
use greenfield.Base.{
  ℤ, eqb_ℤ, ltb_ℤ, eqb_ℤ_iff, Bool, true, false, ◌≡◌, refl, ap, sym, ◌∙◌, subst, some, String, ◌=$◌,
  =$_iff, Dict, lookup, insert, List, [], ◌∷◌, ok, Result-cases, Bool-cases, Option-cases, inl, inr,
  arith, >>=-eq-ok, ok_eq,
}
use greenfield.Book.Event.{
  metadata_int, required_int-metadata_int, Fields, get, Python, RawMarketEvent, payload,
}
use greenfield.Book.Side.{Side, at_least_two, levels, apply_levels, from_levels}
use greenfield.Book.Replay.{
  SequencedBook, is_ready, Session, new_session, counted, book_of, with_gate, new_book,
}
use greenfield.Book.Replay.Sound.{install-written, or_default-insert-same, or_default-insert-other}
use greenfield.Book.Okx.{
  OkxSequenceGate, new_gate, Numbers, read_numbers, first_data, follow, admit, gate_apply,
  write_levels, apply_message, book_apply, after_gate, gate_of, session_apply, replay,
}

write_levels-sequence :
    (message_type : String) (n : ℤ) (b b' : SequencedBook) (bids asks : Side)
    → write_levels message_type n b bids asks ≡ ok b'
    → b'.sequence ≡ some n
write_levels-sequence t n b b' bids asks h = elim (Bool-cases (t =$ "snapshot")) [
  | inl snapshot ↦
      ap (λ x. x.sequence)
        (install-written b b' (from_levels [] bids) (from_levels [] asks) n (ground arith)).0
  | inr other ↦ elim (Bool-cases (is_ready b)) [
    | inr early ↦ absurd (ground arith)
    | inl ready ↦
        ap (λ x. x.sequence)
          (install-written b b' (apply_levels b.bids bids) (apply_levels b.asks asks) n
            (ground arith)).0
  ]
]

apply_message-sequence :
    (py : Python) (message_type : String) (fs : Fields) (n : ℤ) (b b' : SequencedBook)
    → apply_message py message_type fs n b ≡ ok b'
    → b'.sequence ≡ some n
unfolding apply_message
apply_message-sequence py t fs n b b' h =
    let (bids, _, h₁) = >>=-eq-ok (levels py at_least_two (get "bids" fs)) _ h in
    let (asks, _, h₂) = >>=-eq-ok (levels py at_least_two (get "asks" fs)) _ h₁ in
    write_levels-sequence t n b b' bids asks h₂

-- What the session reads for the book is what the gate has read.
book_apply-read :
    (py : Python) (e : RawMarketEvent) (n : Numbers) (b : SequencedBook)
    → read_numbers py e ≡ ok n
    → book_apply py e b ≡ apply_message py e.message_type n.data_fields n.sequence b
unfolding read_numbers book_apply
book_apply-read py e n b h = elim (Result-cases (payload py e)) [
  | inr (x, bad) ↦ absurd (ground arith)
  | inl (m, em) ↦ elim (Result-cases (first_data m)) [
    | inr (x, bad) ↦ absurd (ground arith)
    | inl (fs, ef) ↦ elim (Result-cases (metadata_int py (get "seqId" fs))) [
      | inr (x, bad) ↦ absurd (ground arith)
      | inl (s, es) ↦ elim (Result-cases (metadata_int py (get "prevSeqId" fs))) [
        | inr (x, bad) ↦ absurd (ground arith)
        | inl (p, ep) ↦
            let again = required_int-metadata_int py (get "seqId" fs) s es in ground arith
      ]
    ]
  ]
]

-- What the gate does when it raises nothing.
follow-ok :
    (py : Python) (n : Numbers) (g g' : OkxSequenceGate) (s : ℤ) (a : Bool)
    → follow py n g s ≡ (ok a, g')
    → (g' ≡ record g { sequence = some n.sequence })
      × (n.previous ≡ s)
      × (ltb_ℤ n.sequence n.previous ≡ false)
      × (a ≡ false → n.sequence ≡ n.previous)
unfolding follow
follow-ok py n g g' s a h = elim (Bool-cases (eqb_ℤ n.previous s)) [
  | inr gap ↦ absurd (ground arith)
  | inl there ↦ elim (Bool-cases (ltb_ℤ n.sequence n.previous)) [
    | inl back ↦ absurd (ground arith)
    | inr onwards ↦ (
      ground arith,
      (eqb_ℤ_iff n.previous s).0 there,
      onwards,
      λ f. ground (arith, eqb_ℤ_iff n.sequence n.previous),
    )
  ]
]

admit-ok :
    (py : Python) (e : RawMarketEvent) (n : Numbers) (g g' : OkxSequenceGate) (a : Bool)
    → admit py e n g ≡ (ok a, g')
    → (g'.sequence ≡ some n.sequence) × (a ≡ false → g.sequence ≡ some n.sequence)
unfolding admit
admit-ok py e n g g' a h = elim (Bool-cases (e.message_type =$ "snapshot")) [
  | inl snapshot ↦ (ground arith, ground arith)
  | inr other ↦ elim (Option-cases g.sequence) [
    | inl fresh ↦ absurd (ground arith)
    | inr (s, at) ↦
        let k = follow-ok py n g g' s a (ground arith) in
        (ap (λ x. x.sequence) k.0, λ f. at ∙ ap some (sym k.1 ∙ sym (k.3 f)))
  ]
]

gate_apply-ok :
    (py : Python) (e : RawMarketEvent) (g g' : OkxSequenceGate) (a : Bool)
    → gate_apply py e g ≡ (ok a, g')
    → (n : Numbers) × (read_numbers py e ≡ ok n)
      × (g'.sequence ≡ some n.sequence)
      × (a ≡ false → g.sequence ≡ some n.sequence)
unfolding gate_apply
gate_apply-ok py e g g' a h = elim (Result-cases (read_numbers py e)) [
  | inr (x, bad) ↦ absurd (ground arith)
  | inl (n, good) ↦ let (p, q) = admit-ok py e n g g' a (ground arith) in (n, good, p, q)
]

-- The book and the gate of a symbol are at one sequence.
abbrev pub AgreesAt : String → Dict SequencedBook → Dict OkxSequenceGate → Type 0
AgreesAt symbol books gates = (book_of symbol books).sequence ≡ (gate_of symbol gates).sequence

abbrev pub Agree : Session OkxSequenceGate → Type 0
Agree s = (symbol : String) → AgreesAt symbol s.books s.gates

book_apply-sequence :
    (py : Python) (e : RawMarketEvent) (n : Numbers) (b b' : SequencedBook)
    → read_numbers py e ≡ ok n
    → book_apply py e b ≡ ok b'
    → b'.sequence ≡ some n.sequence
book_apply-sequence py e n b b' good h =
    apply_message-sequence py e.message_type n.data_fields n.sequence b b'
      (sym (book_apply-read py e n b good) ∙ h)

-- Writing both at one symbol keeps the others as they were.
module _ (symbol j : String) (books : Dict SequencedBook) (gates : Dict OkxSequenceGate)
    (b b' : SequencedBook) (g : OkxSequenceGate) where
  written-AgreesAt :
      b'.sequence ≡ g.sequence
      → AgreesAt j books gates
      → AgreesAt j (insert symbol b' (insert symbol b books)) (insert symbol g gates)
  written-AgreesAt same before = elim (Bool-cases (symbol =$ j)) [
    | inl this ↦ ground (
      arith,
      or_default-insert-same symbol j b' (new_book j) (insert symbol b books) this,
      or_default-insert-same symbol j g (new_gate j) gates this,
    )
    | inr other ↦ ground (
      arith,
      or_default-insert-other symbol j b' (new_book j) (insert symbol b books) other,
      or_default-insert-other symbol j b (new_book j) books other,
      or_default-insert-other symbol j g (new_gate j) gates other,
    )
  ]

gate-AgreesAt :
    (symbol j : String) (books : Dict SequencedBook) (gates : Dict OkxSequenceGate)
    (g : OkxSequenceGate)
    → g.sequence ≡ (gate_of symbol gates).sequence
    → AgreesAt j books gates
    → AgreesAt j books (insert symbol g gates)
gate-AgreesAt symbol j books gates g same before = elim (Bool-cases (symbol =$ j)) [
  | inl this ↦
      let e : symbol ≡ j = (=$_iff symbol j).0 this in
      let at : (gate_of j gates).sequence ≡ g.sequence =
        subst (λ k. (gate_of k gates).sequence ≡ g.sequence) e (sym same) in
      before
      ∙ at
      ∙ sym (ap (λ x. x.sequence) (or_default-insert-same symbol j g (new_gate j) gates this))
  | inr other ↦ ground (arith, or_default-insert-other symbol j g (new_gate j) gates other)
]

after_gate-Agree :
    (py : Python) (e : RawMarketEvent) (s s' : Session OkxSequenceGate) (g : OkxSequenceGate)
    (a : Bool)
    → gate_apply py e (gate_of e.symbol s.gates) ≡ (ok a, g)
    → after_gate py e (with_gate e.symbol g s) (ok a) ≡ (ok tt, s')
    → Agree s
    → Agree s'
after_gate-Agree py e s s' g true applied h before j =
    let (n, good, at, quiet) = gate_apply-ok py e (gate_of e.symbol s.gates) g true applied in
    elim (Result-cases (book_apply py e (book_of e.symbol s.books))) [
      | inr (x, refused) ↦ absurd (ground arith)
      | inl (b, done) ↦
          let books : s'.books
              ≡ insert e.symbol b (insert e.symbol (book_of e.symbol s.books) s.books) =
            ground arith in
          let gates : s'.gates ≡ insert e.symbol g s.gates = ground arith in
          let here = book_apply-sequence py e n (book_of e.symbol s.books) b good done in
          rw (books, gates)
            (written-AgreesAt e.symbol j s.books s.gates (book_of e.symbol s.books) b g
              (here ∙ sym at) (before j))
    ]
after_gate-Agree py e s s' g false applied h before j =
    let (n, good, at, quiet) = gate_apply-ok py e (gate_of e.symbol s.gates) g false applied in
    let books : s'.books ≡ s.books = ground arith in
    let gates : s'.gates ≡ insert e.symbol g s.gates = ground arith in
    rw (books, gates)
      (gate-AgreesAt e.symbol j s.books s.gates g (at ∙ sym (quiet refl)) (before j))

counted-Agree : (e : RawMarketEvent) (s : Session OkxSequenceGate) → Agree s → Agree (counted e s)
unfolding counted
counted-Agree e s before = before

session_apply-Agree :
    (py : Python) (e : RawMarketEvent) (s s' : Session OkxSequenceGate)
    → session_apply py e s ≡ (ok tt, s')
    → Agree s
    → Agree s'
unfolding session_apply counted
session_apply-Agree py e s s' h before = elim (Bool-cases (e.exchange =$ "okx")) [
  | inr foreign ↦ absurd (ground arith)
  | inl venue ↦ elim (Bool-cases (e.channel =$ "orderbook")) [
    | inr other ↦ let same : s' ≡ counted e s = ground arith in rw same (counted-Agree e s before)
    | inl book ↦
        let out = gate_apply py e (gate_of e.symbol s.gates) in
        elim (Result-cases out.0) [
          | inr (x, refused) ↦ absurd (ground arith)
          | inl (a, passed) ↦
              let applied : out ≡ (ok a, out.1) = ground arith in
              let after : after_gate py e (with_gate e.symbol out.1 (counted e s)) (ok a)
                  ≡ (ok tt, s') =
                ground arith in
              after_gate-Agree py e (counted e s) s' out.1 a applied after
                (counted-Agree e s before)
        ]
  ]
]

pub replay-Agree :
    (py : Python) (es : List RawMarketEvent) (s s' : Session OkxSequenceGate)
    → replay py es s ≡ ok s'
    → Agree s
    → Agree s'
unfolding replay
replay-Agree py [] s s' h before = rw (sym (ok_eq s s' h)) before
replay-Agree py (e ∷ es) s s' h before = elim (Result-cases (session_apply py e s).0) [
  | inr (x, refused) ↦ absurd (ground arith)
  | inl (done, applied) ↦
      let t = (session_apply py e s).1 in
      let step : session_apply py e s ≡ (ok tt, t) = ground arith in
      replay-Agree py es t s' (ground arith) (session_apply-Agree py e s t step before)
]

pub new_session-Agree : Agree new_session
unfolding lookup
new_session-Agree symbol = refl

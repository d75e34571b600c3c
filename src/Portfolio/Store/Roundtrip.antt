-- ===== src/Portfolio/Store/Roundtrip.antt =====
-- What `PortfolioRiskStateStore` loads from the file that it has saved
-- (src/risk/portfolio_state_store.py).
use greenfield.Base.{
  ℕ, ◌<◌, true, not, Option, none, some, String, List, [], ◌∷◌, map, ◌≡◌, refl, ap, ◌∙◌, subst, ok,
  or_raise, Floats, Datetime, All, arith, Option-cases, >>=-eq-ok, Value, text, object, Fields,
  field_of, without_field, field, list_of-items_of, Codec, Readable, time_read-aware, string_length,
  ◌=$◌, text_refl, ==_iff, =$_iff, ok_eq, raise_if,
}
use greenfield.Portfolio.Records.{
  PortfolioPosition, PortfolioRiskSnapshot, position_post_init, snapshot_post_init, utc,
}
use greenfield.Portfolio.Store.{
  sha256_text, checksum_of, object_from, not_json, not_object, unsupported_schema,
  checksum_mismatch, naive_timestamp, StoreError, or_invalid, position_to_value,
  position_from_value, position_from_fields, positions_from, snapshot_to_value,
  snapshot_from_fields, day_to_value, day_from_value, optional_text, optional_string, digest,
  payload_of, envelope_of, decode_payload, decode_envelope, decode, save, load, checksum, is_schema,
  number, parse_datetime,
}

module _ {A T : Type 0} ⦃F : Floats A⦄ (C : Codec A T) (readable : Readable C) where
  position-facts :
      (p : PortfolioPosition A)
      → position_post_init p ≡ ok tt
      → (F.is_finite p.signed_notional ≡ true)
        × (F.is_finite p.committed_risk_fraction ≡ true)
        × (p.opened_at_utc.aware ≡ true)
  unfolding position_post_init utc
  position-facts p h = (ground arith, ground arith, ground arith)

  position_from_value-position_to_value :
      (p : PortfolioPosition A)
      → position_post_init p ≡ ok tt
      → p.opened_at_utc.micros < 315537897600000000
      → position_from_value C (position_to_value C p) ≡ ok p
  unfolding position_from_fields field_of
  position_from_value-position_to_value p valid early =
      let (notional, risk, aware) = position-facts p valid in
      rw (notional, risk, time_read-aware C readable p.opened_at_utc aware early, valid) refl

  -- A position that passes its checks and was opened before the end of the year 9999.
  abbrev pub IsStorable : PortfolioPosition A → Type 0
  IsStorable p = (position_post_init p ≡ ok tt) × (p.opened_at_utc.micros < 315537897600000000)

  positions_from-map :
      (ps : List (PortfolioPosition A))
      → All IsStorable ps
      → positions_from C (map (position_to_value C) ps) ≡ ok ps
  unfolding positions_from
  positions_from-map [] fits = refl
  positions_from-map (p ∷ ps) ((valid, early), fits) =
      rw (position_from_value-position_to_value p valid early, positions_from-map ps fits) refl

  abbrev pub DayBefore : Option ℕ → Type 0
  DayBefore none = Unit
  DayBefore (some day) = day < 3652059

  day_from_value-day_to_value :
      (day : Option ℕ) → DayBefore day → day_from_value C (day_to_value C day) ≡ ok day
  day_from_value-day_to_value none early = refl
  day_from_value-day_to_value (some day) early =
      rw (readable.day_text day, readable.day_read day early) refl

  optional_string-optional_text : (t : Option String) → optional_string C (optional_text C t) ≡ ok t
  optional_string-optional_text none = refl
  optional_string-optional_text (some t) = refl

  snapshot-facts :
      (s : PortfolioRiskSnapshot A)
      → snapshot_post_init s ≡ ok tt
      → (F.is_finite s.peak_equity ≡ true) × (F.is_finite s.daily_realized_pnl ≡ true)
  unfolding snapshot_post_init
  snapshot-facts s h = (ground arith, ground arith)

  -- A snapshot of storable positions that passes its own checks.
  pub record CanStore (s : PortfolioRiskSnapshot A) : Type 0 where
    pub valid : snapshot_post_init s ≡ ok tt
    pub positions : All IsStorable s.positions
    pub day : DayBefore s.current_day

  decode_payload-payload_of :
      (s : PortfolioRiskSnapshot A) (saved : ℕ)
      → CanStore s
      → saved < 315537897600000000
      → decode_payload C (payload_of C s saved) ≡ ok s
  unfolding decode_payload payload_of snapshot_to_value snapshot_from_fields field_of utc
      greenfield.Portfolio.Store.items_from
  decode_payload-payload_of s saved can early =
      let (peak, pnl) = snapshot-facts s can.valid in
      rw
        (
          readable.time_read saved early,
          list_of-items_of (map (position_to_value C) s.positions),
          positions_from-map s.positions can.positions,
          peak,
          pnl,
          optional_string-optional_text s.kill_switch_reason,
          day_from_value-day_to_value s.current_day can.day,
          can.valid,
        )
        refl

  -- A payload under its own checksum is decoded.
  decode_envelope-digest :
      (payload : Fields A)
      → without_field "sha256" payload ≡ payload
      → is_schema C (field_of "schema_version" payload) ≡ true
      → string_length (digest C payload) ≡ 64
      → decode_envelope C (field "sha256" (text (digest C payload)) payload)
        ≡ decode_payload C payload
  unfolding decode_envelope without_field field_of
  decode_envelope-digest payload lacks schema long =
      rw (schema, (==_iff _ 64).1 long, lacks, text_refl (digest C payload)) refl

  lacks_checksum :
      (s : PortfolioRiskSnapshot A) (saved : ℕ)
      → without_field "sha256" (payload_of C s saved) ≡ payload_of C s saved
  unfolding without_field payload_of
  lacks_checksum s saved = refl

  has_schema :
      (s : PortfolioRiskSnapshot A) (saved : ℕ)
      → is_schema C (field_of "schema_version" (payload_of C s saved)) ≡ true
  unfolding field_of payload_of
  has_schema s saved = refl

  pub decode-envelope_of :
      (s : PortfolioRiskSnapshot A) (saved : ℕ)
      → string_length (digest C (payload_of C s saved)) ≡ 64
      → CanStore s
      → saved < 315537897600000000
      → decode C (C.dumps (object (envelope_of C s saved))) ≡ ok s
  unfolding decode envelope_of
  decode-envelope_of s saved long can early =
      rw
        (
          readable.loads-dumps (object (envelope_of C s saved)),
          decode_envelope-digest (payload_of C s saved) (lacks_checksum s saved)
              (has_schema s saved) long,
        )
        (decode_payload-payload_of s saved can early)

  sha256_text-envelope_of :
      (s : PortfolioRiskSnapshot A) (saved : ℕ)
      → string_length (digest C (payload_of C s saved)) ≡ 64
      → sha256_text C (C.dumps (object (envelope_of C s saved)))
        ≡ ok (digest C (payload_of C s saved))
  unfolding envelope_of field_of
  sha256_text-envelope_of s saved long =
      rw (readable.loads-dumps (object (envelope_of C s saved)), (==_iff _ 64).1 long) refl

  save-facts :
      (s : PortfolioRiskSnapshot A) (at : Datetime) (out : String × T)
      → save C s at ≡ ok out
      → (digest C (payload_of C s at.micros), C.dumps (object (envelope_of C s at.micros))) ≡ out
  unfolding save
  save-facts s at out h =
      let (done, aware, made) = >>=-eq-ok (raise_if (not at.aware) naive_timestamp) _ h in
      ok_eq _ out made

  -- When Python's JSON and time texts can be read back and every digest has 64 characters, a
  -- snapshot that passes its checks, with positions that pass theirs and were opened before the end
  -- of the year 9999, and with a day in that range, saved at a time in that range, is what `load`
  -- returns from the file that `save` writes, and `checksum` returns the checksum that `save`
  -- returned.
  pub load-save :
      ((payload : Fields A) → string_length (digest C payload) ≡ 64)
      → (s : PortfolioRiskSnapshot A) (at : Datetime) (sum : String) (file : T) → CanStore s
      → at.micros < 315537897600000000
      → save C s at ≡ ok (sum, file)
      → (load C (some file) ≡ ok (some s)) × (checksum C (some file) ≡ ok (some sum))
  unfolding save load checksum
  load-save long s at sum file can early h =
      let same = save-facts s at (sum, file) h in
      let long_here = long (payload_of C s at.micros) in
      let decoded : decode C file ≡ ok s =
        subst (λ out. decode C out.1 ≡ ok s) same
          (decode-envelope_of s at.micros long_here can early) in
      let read : sha256_text C file ≡ ok sum =
        subst (λ out. sha256_text C out.1 ≡ ok out.0) same
          (sha256_text-envelope_of s at.micros long_here) in
      (rw decoded refl, rw (decoded, read) refl)

module _ {A T : Type 0} ⦃F : Floats A⦄ (C : Codec A T) where
  checksum_of-text :
      (found : Option (Value A)) (sum : String)
      → checksum_of C found ≡ ok sum
      → found ≡ some (text sum)
  checksum_of-text (some (text t)) sum h = ground arith
  checksum_of-text found sum h = ground arith

  object_from-object :
      (error : StoreError) (v : Value A) (fs : Fields A)
      → object_from C error v ≡ ok fs
      → v ≡ object fs
  object_from-object error (object fs) fs1 h = ground arith
  object_from-object error v fs h = ground arith

  decode_envelope-checksum :
      (envelope : Fields A) (s : PortfolioRiskSnapshot A)
      → decode_envelope C envelope ≡ ok s
      → field_of "sha256" envelope ≡ some (text (digest C (without_field "sha256" envelope)))
  unfolding decode_envelope
  decode_envelope-checksum envelope s h =
      let (done, schema, h1) =
        >>=-eq-ok
          (raise_if (not (is_schema C (field_of "schema_version" envelope))) unsupported_schema) _
          h in
      let (sum, found, h2) = >>=-eq-ok (checksum_of C (field_of "sha256" envelope)) _ h1 in
      let (done2, equal, h3) =
        >>=-eq-ok
          (raise_if (not (sum =$ digest C (without_field "sha256" envelope))) checksum_mismatch) _
          h2 in
      checksum_of-text _ sum found
      ∙ ap (λ t. some (text t))
          ((=$_iff sum (digest C (without_field "sha256" envelope))).0 (ground arith))

  -- A file that the portfolio risk store decodes is a JSON object whose `sha256` is the digest of
  -- the object without it: any other file is refused.
  pub decode-checksum :
      (file : T) (s : PortfolioRiskSnapshot A)
      → decode C file ≡ ok s
      → (envelope : Fields A) × (C.loads file ≡ some (object envelope))
        × (field_of "sha256" envelope ≡ some (text (digest C (without_field "sha256" envelope))))
  unfolding decode
  decode-checksum file s h =
      let (v, loaded, h1) = >>=-eq-ok (or_raise (C.loads file) not_json) _ h in
      let (envelope, found, h2) = >>=-eq-ok (object_from C not_object v) _ h1 in
      (
        envelope,
        ground (arith, Option-cases (C.loads file), object_from-object not_object v envelope found),
        decode_envelope-checksum envelope s h2,
      )

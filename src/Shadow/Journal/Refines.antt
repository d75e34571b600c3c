-- ===== src/Shadow/Journal/Refines.antt =====
-- The shadow audit journal against a list of records (src/execution/shadow_runtime.py).
use greenfield.Base.{
  ◌<◌, false, true, Option, none, some, String, List, [], ◌∷◌, ◌++◌, map, ◌≡◌, refl, sym, ap, ◌∙◌,
  subst, ok, string_length, Bool-cases, inl, inr, >>=-eq-ok, >>=-ok, ok_eq, All, if◌then◌else◌,
  field_of, Codec, Readable, ==_iff, text_refl,
}
use greenfield.Portfolio.Records.{contains}
use greenfield.Shadow.Record.{ShadowAuditRecord, record_post_init, record_to_value, optional_text}
use greenfield.Shadow.Record.Roundtrip.{record_from_value-record_to_value}
use greenfield.Shadow.Journal.{
  ShadowAuditJournal, Scan, start, lines_of, chained, digest, envelope, append, append_all,
  appended, checksum_after, line_after, verify_line, verify_lines, is_previous,
}

-- A record that the journal can read back.
abbrev pub CanRecord : ShadowAuditRecord → Type 0
CanRecord r = (record_post_init r ≡ ok tt) × (r.decision_timestamp_utc.micros < 315537897600000000)

module _ {A T : Type 0} (C : Codec A T) where
  -- The lines that have been read, one more.
  verify_lines-append :
      (lines : List T) (line : T) (s s1 : Scan)
      → verify_lines C lines s ≡ ok s1
      → verify_lines C (lines ++ line ∷ []) s ≡ verify_line C line s1
  unfolding verify_lines
  verify_lines-append [] line s s1 h =
      subst (λ x. verify_lines C (line ∷ []) s ≡ verify_line C line x) (ok_eq s s1 h)
        (>>=-ok (verify_line C line s))
  verify_lines-append (l ∷ lines) line s s1 h =
      let (mid, first, rest) = >>=-eq-ok (verify_line C l s) (verify_lines C lines) h in
      rw first (verify_lines-append lines line mid s1 rest)

  pub map_append :
      (rs : List ShadowAuditRecord) (r : ShadowAuditRecord)
      → map (λ x. x.observation_id) (rs ++ r ∷ [])
        ≡ map (λ x. x.observation_id) rs ++ r.observation_id ∷ []
  map_append [] r = refl
  map_append (x ∷ rs) r = ap (λ ids. x.observation_id ∷ ids) (map_append rs r)

  -- A journal stands for the records that its file verifies to.
  pub record Represents (j : ShadowAuditJournal T) (rs : List ShadowAuditRecord) : Type 0 where
    pub scan : Scan
    pub verified : verify_lines C (lines_of j.file) start ≡ ok scan
    pub records : scan.records ≡ rs
    pub last : scan.previous ≡ j.last_hash
    pub ids : scan.seen ≡ j.observation_ids
    pub seen : scan.seen ≡ map (λ r. r.observation_id) scan.records

  is_previous-optional_text : (t : Option String) → is_previous C (optional_text C t) t ≡ true
  is_previous-optional_text none = refl
  is_previous-optional_text (some t) = text_refl t

  module _ (readable : Readable C) (long : (t : T) → string_length (C.sha256 t) ≡ 64) where
    verify_line-envelope :
        (r : ShadowAuditRecord) (s : Scan)
        → CanRecord r
        → contains r.observation_id s.seen ≡ false
        → let previous = optional_text C s.previous in
          let sum = digest C (chained C previous (record_to_value C r)) in
          verify_line C (C.dumps (envelope C previous (record_to_value C r) sum)) s
          ≡ ok (record {
            records = s.records ++ r ∷ [];
            previous = some sum;
            seen = s.seen ++ r.observation_id ∷ [];
          })
    unfolding verify_line field_of
    verify_line-envelope r s (valid, early) fresh =
        let previous = optional_text C s.previous in
        let body = record_to_value C r in
        let sum = digest C (chained C previous body) in
        rw
          (
            readable.loads-dumps (envelope C previous body sum),
            is_previous-optional_text s.previous,
            (==_iff (string_length sum) 64).1 (long _),
            text_refl sum,
            record_from_value-record_to_value C readable r valid early,
            fresh,
          )
          refl

    pub appended-Represents :
        (r : ShadowAuditRecord) (j : ShadowAuditJournal T) (rs : List ShadowAuditRecord)
        → CanRecord r
        → contains r.observation_id j.observation_ids ≡ false
        → Represents j rs
        → Represents (appended C r j) (rs ++ r ∷ [])
    unfolding appended line_after checksum_after
    appended-Represents r j rs can fresh rep =
        let s = rep.scan in
        record {
          scan = record {
            records = s.records ++ r ∷ [];
            previous = some (checksum_after C r j);
            seen = s.seen ++ r.observation_id ∷ [];
          };
          verified =
              verify_lines-append (lines_of j.file) _ start s rep.verified
              ∙ subst
                  (λ last.
                    verify_line C
                      (C.dumps (
                        envelope C (optional_text C last) (record_to_value C r)
                          (digest C (chained C (optional_text C last) (record_to_value C r)))))
                      s
                    ≡ ok (record {
                      records = s.records ++ r ∷ [];
                      previous =
                          some (digest C (chained C (optional_text C last) (record_to_value C r)));
                      seen = s.seen ++ r.observation_id ∷ [];
                    }))
                  rep.last
                  (verify_line-envelope r s can
                    (subst (λ ids. contains r.observation_id ids ≡ false) (sym rep.ids) fresh));
          records = ap (λ x. x ++ r ∷ []) rep.records;
          last = refl;
          ids = ap (λ x. x ++ r.observation_id ∷ []) rep.ids;
          seen = ap (λ x. x ++ r.observation_id ∷ []) rep.seen ∙ sym (map_append s.records r);
        }

-- The records that a list takes in, in turn: those whose observation it has already are left out.
unfoldable pub record_all : List ShadowAuditRecord → List ShadowAuditRecord → List ShadowAuditRecord
record_all [] rs = rs
record_all (r ∷ new) rs =
    if contains r.observation_id (map (λ x. x.observation_id) rs)
    then record_all new rs
    else record_all new (rs ++ r ∷ [])

module _ {A T : Type 0} (C : Codec A T) where
  module _ (readable : Readable C) (long : (t : T) → string_length (C.sha256 t) ≡ 64) where
    pub append_all-Represents :
        (new : List ShadowAuditRecord) (j : ShadowAuditJournal T) (rs : List ShadowAuditRecord)
        → All CanRecord new
        → Represents C j rs
        → Represents C (append_all C new j) (record_all new rs)
    unfolding append_all append record_all
    append_all-Represents [] j rs can rep = rep
    append_all-Represents (r ∷ new) j rs (fits, can) rep =
        let same : j.observation_ids ≡ map (λ x. x.observation_id) rs =
          sym rep.ids ∙ rep.seen ∙ ap (map (λ x. x.observation_id)) rep.records in
        elim (Bool-cases (contains r.observation_id j.observation_ids)) [
          | inl old ↦
              rw (old, subst (λ ids. contains r.observation_id ids ≡ true) same old)
                (append_all-Represents new j rs can rep)
          | inr fresh ↦
              rw (fresh, subst (λ ids. contains r.observation_id ids ≡ false) same fresh)
                (append_all-Represents new (appended C r j) (rs ++ r ∷ []) can
                  (appended-Represents C readable long r j rs fits fresh rep))
        ]

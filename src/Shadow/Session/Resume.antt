-- ===== src/Shadow/Session/Resume.antt =====
-- `resume` after a call that has saved a state (src/execution/shadow_runtime.py).
use greenfield.Base.{
  Option-cases, ◌<◌, ◌≤◌, Bool, false, ◌||◌, Option, none, some, String, List, [], ◌∷◌, ◌++◌, any,
  ◌≡◌, refl, sym, ap, ◌∙◌, subst, ok, Floats, Codec, Readable, Datetime, length, arith, inl, inr,
  text_refl, string_length, values,
}
use greenfield.Portfolio.Records.{PortfolioRiskSnapshot, PortfolioRiskConfig}
use greenfield.Portfolio.Engine.{PortfolioRiskEngine}
use greenfield.Portfolio.Calls.{snapshot, from_snapshot}
use greenfield.Portfolio.Calls.Invariant.{IsValid, Entries}
use greenfield.Portfolio.Calls.Restore.{IsRestored, from_snapshot-snapshot, snapshot-fields}
use greenfield.Portfolio.Calls.Restored.{sort_by_key-All, values-All}
use greenfield.Portfolio.Store
use greenfield.Portfolio.Store.{save, load, load_required}
use greenfield.Portfolio.Store.Roundtrip.{CanStore, IsStorable, DayBefore, load-save}
use greenfield.Shadow.Record.{ShadowAuditRecord, ShadowSessionContext, is_empty}
use greenfield.Shadow.Journal.{
  ShadowAuditJournal, appended, verify, latest_risk_state_sha256, latest_among,
}
use greenfield.Shadow.Journal.Refines.{Represents, appended-Represents}
use greenfield.Shadow.Journal.Reopen.{scan-verify}
use greenfield.Shadow.Runtime.{ShadowRuntime, Note, record_of, commit_staged}
use greenfield.Shadow.Session.Committed.{commit_staged-Committed}
use greenfield.Shadow.Session.{resume, shadow, is_foreign}

the_first : (a b : Bool) → (a || b) ≡ false → a ≡ false
the_first a b h = ground arith

the_rest : (a b : Bool) → (a || b) ≡ false → b ≡ false
the_rest a b h = ground arith

module _ {A T : Type 0} ⦃F : Floats A⦄ (C : Codec A T) (readable : Readable C) where
  -- A well-formed engine within its limit, whose times are before the end of the year 9999.
  pub record CanSave (e : PortfolioRiskEngine A) : Type 0 where
    pub valid : IsValid e
    pub few : length e.positions ≤ e.config.maximum_open_positions
    pub early : Entries (λ k p. p.opened_at_utc.micros < 315537897600000000) e.positions
    pub day : DayBefore C readable e.current_day

  CanSave-CanStore :
      (e : PortfolioRiskEngine A) (s : PortfolioRiskSnapshot A)
      → CanSave e
      → snapshot e ≡ ok s
      → CanStore C readable s
  CanSave-CanStore e s can h =
      let (same, distinct, passes) = snapshot-fields e s h in
      subst (CanStore C readable) same (record {
        valid = passes;
        positions = sort_by_key-All (IsStorable C readable) (values e.positions) (
            values-All (IsStorable C readable) e.positions can.valid.unique
              (λ k p found. ((can.valid.kept k p found).1, can.early k p found)));
        day = can.day;
      })

  module _ (long : (t : T) → string_length (C.sha256 t) ≡ 64) where
    is_empty-append :
        (rs : List ShadowAuditRecord) (r : ShadowAuditRecord) → is_empty (rs ++ r ∷ []) ≡ false
    is_empty-append [] r = refl
    is_empty-append (x ∷ rs) r = refl

    foreign-append :
        (c : ShadowSessionContext) (n : Note) (rs : List ShadowAuditRecord)
        → any (is_foreign c) rs ≡ false
        → any (is_foreign c) (rs ++ record_of c n ∷ []) ≡ false
    foreign-append c n [] h =
        rw
          (
            text_refl c.session_id,
            text_refl c.dataset_fingerprint,
            text_refl c.code_commit,
            text_refl c.config_fingerprint,
          )
          refl
    foreign-append c n (r ∷ rs) h =
        rw (the_first (is_foreign c r) (any (is_foreign c) rs) h)
          (foreign-append c n rs (the_rest (is_foreign c r) (any (is_foreign c) rs) h))

    latest_among-append :
        (last : Option String) (rs : List ShadowAuditRecord) (r : ShadowAuditRecord) (sum : String)
        → r.risk_state_sha256 ≡ some sum
        → latest_among C last (rs ++ r ∷ []) ≡ some sum
    unfolding latest_among
    latest_among-append last [] r sum h = rw h refl
    latest_among-append last (x ∷ rs) r sum h = elim (Option-cases x.risk_state_sha256) [
      | inl without ↦ rw without (latest_among-append last rs r sum h)
      | inr (own, with_own) ↦ rw with_own (latest_among-append (some own) rs r sum h)
    ]

    resume-ok :
        (lower : String → String) (context : ShadowSessionContext) (file : T)
        (j : ShadowAuditJournal T) (config : PortfolioRiskConfig A) (s : PortfolioRiskSnapshot A)
        (sum : String) (rs : List ShadowAuditRecord) (e : PortfolioRiskEngine A)
        → load C (some file) ≡ ok (some s)
        → Store.checksum C (some file) ≡ ok (some sum)
        → verify C j.file ≡ ok rs
        → is_empty rs ≡ false
        → any (is_foreign context) rs ≡ false
        → latest_among C none rs ≡ some sum
        → from_snapshot config s ≡ ok e
        → resume C lower shadow context (some file) j config
          ≡ ok (record { context = context; risk_engine = e; risk_store = some file; journal = j })
    unfolding resume load_required latest_risk_state_sha256
    resume-ok lower context file j config s sum rs e loaded checksum verified some_records own
          latest built =
        rw (loaded, verified, some_records, own, latest, checksum, built, text_refl sum) refl

    pub commit_staged-resume :
        (lower : String → String) (e : PortfolioRiskEngine A) (at : Datetime)
        (note : Option String → Note) (rt : ShadowRuntime A T) (r : ShadowAuditRecord)
        (rt1 : ShadowRuntime A T) (rs : List ShadowAuditRecord)
        → CanSave e
        → at.micros < 315537897600000000
        → Represents C rt.journal rs
        → any (is_foreign rt.context) rs ≡ false
        → ((sum : Option String) → ((note sum).risk_state_sha256 ≡ sum) × ((note sum).time ≡ at))
        → commit_staged C lower e at note rt ≡ (ok r, rt1)
        → (rt2 : ShadowRuntime A T) × (resume C lower shadow rt.context rt1.risk_store rt1.journal
              e.config
            ≡ ok rt2)
          × IsRestored e rt2.risk_engine
    commit_staged-resume lower e at note rt r rt1 rs can early rep own says h =
        let c = commit_staged-Committed C lower e at note rt r rt1 h in
        let s = c.taken_state in
        let (loaded, checked_sum) =
          load-save C readable (λ payload. long _) s at c.sum c.file
            (CanSave-CanStore e s can c.took) early c.saved in
        let (sum_noted, time_noted) = says (some c.sum) in
        let r_sum : r.risk_state_sha256 ≡ some c.sum =
          ap (λ x. x.risk_state_sha256) (sym c.noted) ∙ sum_noted in
        let r_time : r.decision_timestamp_utc ≡ at =
          ap (λ x. x.decision_timestamp_utc) (sym c.noted) ∙ time_noted in
        let r_early : r.decision_timestamp_utc.micros < 315537897600000000 =
          subst (λ t. t.micros < 315537897600000000) (sym r_time) early in
        let after =
          appended-Represents C readable long r rt.journal rs (c.passes, r_early) c.fresh rep in
        let verified =
          scan-verify C (appended C r rt.journal).file after.scan after.verified
          ∙ ap ok after.records in
        let own_after : any (is_foreign rt.context) (rs ++ r ∷ []) ≡ false =
          subst (λ x. any (is_foreign rt.context) (rs ++ x ∷ []) ≡ false) c.noted
            (foreign-append rt.context (note (some c.sum)) rs own) in
        let (e2, built, restored) = from_snapshot-snapshot e s can.valid c.took can.few in
        let resumed =
          resume-ok lower rt.context c.file (appended C r rt.journal) e.config s c.sum
            (rs ++ r ∷ []) e2 loaded checked_sum verified (is_empty-append rs r) own_after
            (latest_among-append none rs r c.sum r_sum) built in
        subst
          (λ x.
            (rt2 : ShadowRuntime A T) × (resume C lower shadow rt.context x.risk_store x.journal
                e.config
              ≡ ok rt2)
            × IsRestored e rt2.risk_engine)
          (sym c.left) (_, resumed, restored)

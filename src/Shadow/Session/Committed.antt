-- ===== src/Shadow/Session/Committed.antt =====
-- What a call that saves a state has written (src/execution/shadow_runtime.py).
use greenfield.Base.{
  false, Option, some, String, ◌≡◌, refl, sym, ap, ◌∙◌, subst, Result, ok, err, raise_if, Floats,
  Codec, Datetime, arith, >>=-eq-ok, ok_eq,
}
use greenfield.Portfolio.Records
use greenfield.Portfolio.Records.{
  contains, PortfolioPosition, PortfolioRiskSnapshot, PortfolioRiskConfig, position_post_init,
  snapshot_post_init,
}
use greenfield.Portfolio.Engine.{PortfolioRiskEngine}
use greenfield.Portfolio.Calls.{snapshot}
use greenfield.Portfolio.Store
use greenfield.Portfolio.Store.{save, load, load_required}
use greenfield.Shadow.Record.{Error, duplicate_observation, ShadowAuditRecord, record_post_init}
use greenfield.Shadow.Journal.{ShadowAuditJournal, append, appended}
use greenfield.Shadow.Runtime.{
  ShadowRuntime, or_engine, or_store, Note, record_of, record_note, journaled, checked, save_staged,
  settled, commit_staged,
}

module _ {A T : Type 0} ⦃F : Floats A⦄ (C : Codec A T) where
  -- What a successful commit has written.
  pub record Committed (lower : String → String) (e : PortfolioRiskEngine A) (at : Datetime)
      (note : Option String → Note) (rt : ShadowRuntime A T) (r : ShadowAuditRecord)
      (rt1 : ShadowRuntime A T) : Type 0 where
    pub taken_state : PortfolioRiskSnapshot A
    pub sum : String
    pub file : T
    pub took : snapshot e ≡ ok taken_state
    pub saved : save C taken_state at ≡ ok (sum, file)
    pub noted : record_of rt.context (note (some sum)) ≡ r
    pub passes : record_post_init r ≡ ok tt
    pub fresh : contains r.observation_id rt.journal.observation_ids ≡ false
    pub left :
        rt1
        ≡ record rt { risk_engine = e; risk_store = some file; journal = appended C r rt.journal }

  pub or_engine-ok :
      {B : Type 0} (call : Result Records.Error B) (b : B) → or_engine call ≡ ok b → call ≡ ok b
  or_engine-ok (ok a) b h = ap ok (ok_eq a b h)
  or_engine-ok (err e) b h = absurd (cc h)

  or_store-ok :
      {B : Type 0} (call : Result Store.StoreError B) (b : B) → or_store call ≡ ok b → call ≡ ok b
  or_store-ok (ok a) b h = ap ok (ok_eq a b h)
  or_store-ok (err e) b h = absurd (cc h)

  append-facts :
      (r : ShadowAuditRecord) (j j1 : ShadowAuditJournal T) (sum : String)
      → append C r j ≡ ok (sum, j1)
      → (contains r.observation_id j.observation_ids ≡ false) × (appended C r j ≡ j1)
  unfolding append
  append-facts r j j1 sum h =
      let (done, fresh, made) =
        >>=-eq-ok (raise_if (contains r.observation_id j.observation_ids) duplicate_observation) _
          h in
      (ground arith, ap (λ x. x.1) (ok_eq _ (sum, j1) made))

  -- A record that has been noted.
  record Noted (r0 : ShadowAuditRecord) (rt : ShadowRuntime A T) (r : ShadowAuditRecord)
      (rt1 : ShadowRuntime A T) : Type 0 where
    same : r0 ≡ r
    passes : record_post_init r0 ≡ ok tt
    fresh : contains r0.observation_id rt.journal.observation_ids ≡ false
    left : record rt { journal = appended C r0 rt.journal } ≡ rt1

  module _ (lower : String → String) where
    journaled-Noted :
        (r0 r : ShadowAuditRecord) (rt rt1 : ShadowRuntime A T)
        → record_post_init r0 ≡ ok tt
        → (made : Result Error (String × ShadowAuditJournal T)) → append C r0 rt.journal ≡ made
        → journaled C lower r0 rt made ≡ (ok r, rt1)
        → Noted r0 rt r rt1
    journaled-Noted r0 r rt rt1 passes (err e) a h = absurd (cc (ap (λ x. x.0) h))
    journaled-Noted r0 r rt rt1 passes (ok (sum, j1)) a h =
        let (fresh, same_journal) = append-facts r0 rt.journal j1 sum a in
        record {
          same = ok_eq r0 r (ap (λ x. x.0) h);
          passes = passes;
          fresh = fresh;
          left = ap (λ j. record rt { journal = j }) same_journal ∙ ap (λ x. x.1) h;
        }

    checked-Noted :
        (r0 r : ShadowAuditRecord) (rt rt1 : ShadowRuntime A T)
        → (made : Result Error (Unit {0})) → record_post_init r0 ≡ made
        → checked C lower r0 rt made ≡ (ok r, rt1)
        → Noted r0 rt r rt1
    checked-Noted r0 r rt rt1 (err e) p h = absurd (cc (ap (λ x. x.0) h))
    checked-Noted r0 r rt rt1 (ok done) p h = journaled-Noted r0 r rt rt1 p _ refl h

    settled-Committed :
        (e : PortfolioRiskEngine A) (at : Datetime) (note : Option String → Note)
        (rt : ShadowRuntime A T) (r : ShadowAuditRecord) (rt1 : ShadowRuntime A T)
        → (made : Result Error (String × T)) → save_staged C lower e at ≡ made
        → settled C lower e note rt made ≡ (ok r, rt1)
        → Committed lower e at note rt r rt1
    unfolding record_note save_staged
    settled-Committed e at note rt r rt1 (err error) m h = absurd (cc (ap (λ x. x.0) h))
    settled-Committed e at note rt r rt1 (ok (sum, file)) m h =
        let (s, took, m1) = >>=-eq-ok (or_engine (snapshot e)) _ m in
        let n =
          checked-Noted (record_of rt.context (note (some sum))) r
            (record rt { risk_engine = e; risk_store = some file }) rt1 _ refl h in
        record {
          taken_state = s;
          sum = sum;
          file = file;
          took = or_engine-ok (snapshot e) s took;
          saved = or_store-ok (save C s at) (sum, file) m1;
          noted = n.same;
          passes = subst (λ x. record_post_init x ≡ ok tt) n.same n.passes;
          fresh =
              subst (λ x. contains x.observation_id rt.journal.observation_ids ≡ false) n.same
                n.fresh;
          left =
              sym n.left
              ∙ ap
                  (λ x. record rt {
                    risk_engine = e;
                    risk_store = some file;
                    journal = appended C x rt.journal;
                  })
                  n.same;
        }

    pub commit_staged-Committed :
        (e : PortfolioRiskEngine A) (at : Datetime) (note : Option String → Note)
        (rt : ShadowRuntime A T) (r : ShadowAuditRecord) (rt1 : ShadowRuntime A T)
        → commit_staged C lower e at note rt ≡ (ok r, rt1)
        → Committed lower e at note rt r rt1
    unfolding commit_staged
    commit_staged-Committed e at note rt r rt1 h =
        settled-Committed e at note rt r rt1 (save_staged C lower e at) refl h

-- ===== src/Shadow/Session/Hold.antt =====
-- A safety hold of the shadow runtime across `resume` (src/execution/shadow_runtime.py).
use greenfield.Base.{
  ◌<◌, false, Option, some, String, List, any, ◌≡◌, refl, sym, ap, ◌∙◌, subst, Result, ok, err,
  raise_if, Floats, Codec, Readable, Datetime, lookup, All, values, is_blank, >>=-eq-ok, ok_eq,
  string_length,
}
use greenfield.Portfolio.Records.{position_post_init, blank_reason as no_reason}
use greenfield.Portfolio.Engine.{PortfolioRiskEngine, sort_by_key}
use greenfield.Portfolio.Calls.{snapshot, from_snapshot, activate_kill_switch}
use greenfield.Portfolio.Calls.Invariant.{IsValid}
use greenfield.Portfolio.Calls.Restore.{IsRestored, from_snapshot-snapshot, snapshot-fields}
use greenfield.Portfolio.Calls.Restored.{sort_by_key-All, values-All, from_snapshot-IsValid}
use greenfield.Portfolio.Store.Roundtrip.{DayBefore}
use greenfield.Shadow.Record.{Error, ShadowAuditRecord, blank_reason}
use greenfield.Shadow.Journal.{ensure_available}
use greenfield.Shadow.Journal.Refines.{Represents}
use greenfield.Shadow.Runtime.{ShadowRuntime, or_engine, stage, Outcome}
use greenfield.Shadow.Session.{
  activate_safety_hold, hold_staged, hold_note, attempt, resume, shadow, is_foreign, utc,
}
use greenfield.Shadow.Session.Committed.{or_engine-ok}
use greenfield.Shadow.Session.Resume.{CanSave, commit_staged-resume}

module _ {A T : Type 0} ⦃F : Floats A⦄ (C : Codec A T) (readable : Readable C) where
  -- A runtime whose engine can be saved, and whose journal verifies to records of its own context.
  pub record IsLive (rt : ShadowRuntime A T) (rs : List ShadowAuditRecord) : Type 0 where
    pub engine : CanSave C readable rt.risk_engine
    pub journal : Represents C rt.journal rs
    pub own : any (is_foreign rt.context) rs ≡ false

  post_init-sorted :
      (e : PortfolioRiskEngine A)
      → IsValid e
      → All (λ p. position_post_init p ≡ ok tt) (sort_by_key (values e.positions))
  post_init-sorted e v =
      sort_by_key-All (λ p. position_post_init p ≡ ok tt) (values e.positions)
        (values-All (λ p. position_post_init p ≡ ok tt) e.positions v.unique
          (λ k p found. (v.kept k p found).1))

  -- A staged engine holds the state of the engine, and can be saved as well.
  stage-CanSave :
      (lower : String → String) (rt : ShadowRuntime A T) (e : PortfolioRiskEngine A)
      → CanSave C readable rt.risk_engine
      → stage C lower rt ≡ ok e
      → CanSave C readable e × IsRestored rt.risk_engine e
  unfolding stage
  stage-CanSave lower rt e can h =
      let (s, took, h1) = >>=-eq-ok (or_engine (snapshot rt.risk_engine)) _ h in
      let took_it = or_engine-ok C (snapshot rt.risk_engine) s took in
      let built = or_engine-ok C (from_snapshot rt.risk_engine.config s) e h1 in
      let (same, distinct, passes) = snapshot-fields rt.risk_engine s took_it in
      let fits =
        subst (λ x. All (λ p. position_post_init p ≡ ok tt) x.positions) same
          (post_init-sorted rt.risk_engine can.valid) in
      let (valid, few, config) = from_snapshot-IsValid rt.risk_engine.config s e built fits in
      let (e2, built2, restored2) =
        from_snapshot-snapshot rt.risk_engine s can.valid took_it can.few in
      let restored =
        subst (IsRestored rt.risk_engine) (ok_eq e2 e (sym built2 ∙ built)) restored2 in
      (
        record {
          valid = valid;
          few = few;
          early = λ k p found. can.early k p (sym (restored.positions k) ∙ found);
          day = subst (DayBefore C readable) (sym restored.day) can.day;
        },
        restored,
      )

  attempt-ok :
      (lower : String → String) {B : Type 0} (call : Result Error B) (next : B → Outcome C lower)
      (rt : ShadowRuntime A T) (r : ShadowAuditRecord) (rt1 : ShadowRuntime A T)
      → attempt C lower call next rt ≡ (ok r, rt1)
      → (b : B) × (call ≡ ok b) × (next b ≡ (ok r, rt1))
  attempt-ok lower (ok b) next rt r rt1 h = (b, refl, h)
  attempt-ok lower (err e) next rt r rt1 h = absurd (cc (ap (λ x. x.0) h))

  activate-eq :
      (reason : String) (e e1 : PortfolioRiskEngine A)
      → activate_kill_switch reason e ≡ ok e1
      → record e { kill_switch_reason = some reason } ≡ e1
  unfolding activate_kill_switch
  activate-eq reason e e1 h =
      let (done, named, made) = >>=-eq-ok (raise_if (is_blank reason) no_reason) _ h in
      ok_eq _ e1 made

  -- The kill switch does not matter to the saving of an engine.
  killed :
      {e : PortfolioRiskEngine A} {reason : Option String}
      → CanSave C readable e
      → CanSave C readable (record e { kill_switch_reason = reason })
  killed can = record {
    valid = record {
      unique = can.valid.unique;
      unique_pending = can.valid.unique_pending;
      kept = can.valid.kept;
      pending = can.valid.pending;
    };
    few = can.few;
    early = can.early;
    day = can.day;
  }

  -- What is staged for a hold.
  hold_staged-facts :
      (lower : String → String) (id reason : String) (at : Datetime) (rt : ShadowRuntime A T)
      (e : PortfolioRiskEngine A)
      → hold_staged C lower id reason at rt ≡ ok e
      → (e1 : PortfolioRiskEngine A) × (stage C lower rt ≡ ok e1)
        × (record e1 { kill_switch_reason = some reason } ≡ e)
  unfolding hold_staged
  hold_staged-facts lower id reason at rt e h =
      let (done, free, h1) = >>=-eq-ok (ensure_available C id rt.journal) _ h in
      let (done2, aware, h2) = >>=-eq-ok (utc C lower at) _ h1 in
      let (done3, named, h3) = >>=-eq-ok (raise_if (is_blank reason) blank_reason) _ h2 in
      let (e1, staged, h4) = >>=-eq-ok (stage C lower rt) _ h3 in
      (e1, staged, activate-eq reason e1 e (or_engine-ok C (activate_kill_switch reason e1) e h4))

  -- When Python's JSON and time texts can be read back, every digest has 64 characters, the engine
  -- of a shadow runtime is valid, within its position limit and with times before the end of the
  -- year 9999, its journal verifies to records of its own context, and a safety hold at such a time
  -- succeeds, then `resume` succeeds on the file and the journal that the hold leaves, and the new
  -- engine has the kill switch of the hold and the same position under every key.
  pub activate_safety_hold-resume :
      ((t : T) → string_length (C.sha256 t) ≡ 64)
      → (lower : String → String) (id reason : String) (at : Datetime) (rt rt1 : ShadowRuntime A T)
        (r : ShadowAuditRecord) (rs : List ShadowAuditRecord)
      → IsLive rt rs
      → at.micros < 315537897600000000
      → activate_safety_hold C lower id reason at rt ≡ (ok r, rt1)
      → (rt2 : ShadowRuntime A T) × (resume C lower shadow rt.context rt1.risk_store rt1.journal
            rt.risk_engine.config
          ≡ ok rt2)
        × (rt2.risk_engine.kill_switch_reason ≡ some reason)
        × ((k : String) → lookup k rt2.risk_engine.positions ≡ lookup k rt.risk_engine.positions)
  unfolding activate_safety_hold
  activate_safety_hold-resume long lower id reason at rt rt1 r rs live early h =
      let (e, staged, committed) =
        attempt-ok lower (hold_staged C lower id reason at rt) _ rt r rt1 h in
      let (e1, from, same) = hold_staged-facts lower id reason at rt e staged in
      let (can, restored) = stage-CanSave lower rt e1 live.engine from in
      let can_e : CanSave C readable e = subst (CanSave C readable) same (killed can) in
      let (rt2, resumed, after) =
        commit_staged-resume C readable long lower e at (hold_note C lower id reason at) rt r rt1 rs
          can_e early live.journal live.own (λ sum. (refl, refl)) committed in
      (
        rt2,
        subst (λ c. resume C lower shadow rt.context rt1.risk_store rt1.journal c ≡ ok rt2)
            (ap (λ x. x.config) (sym same) ∙ restored.config) resumed,
        after.kill_switch ∙ ap (λ x. x.kill_switch_reason) (sym same),
        λ k. after.positions k ∙ ap (λ x. lookup k x.positions) (sym same) ∙ restored.positions k,
      )

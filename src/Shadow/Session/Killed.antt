-- ===== src/Shadow/Session/Killed.antt =====
-- Observations of a shadow runtime whose kill switch is on (src/execution/shadow_runtime.py).
use greenfield.Base.{
  Bool, false, true, not, ◌||◌, String, List, [], ◌∷◌, ◌++◌, length, ◌≡◌, refl, sym, ap, ◌∙◌, subst,
  Result, ok, err, raise_if, or_raise, Floats, Codec, arith, is_some, Bool-cases, inl, inr,
  >>=-eq-ok, ok_eq, ◌==◌, ltb,
}
use greenfield.Portfolio.Records.{
  PortfolioRiskSnapshot, PortfolioEntryProposal, PortfolioRiskDecision, PortfolioRiskConfig,
  too_many_positions,
}
use greenfield.Portfolio.Engine.{PortfolioRiskEngine}
use greenfield.Portfolio.Entry.{evaluate_entry}
use greenfield.Portfolio.Entry.Limits.{evaluate_entry-IsClear}
use greenfield.Portfolio.Calls.{snapshot, from_snapshot}
use greenfield.Portfolio.Calls.Restore.{snapshot-fields}
use greenfield.Shadow.Record.{
  Error, ShadowAuditRecord, record_post_init, is_empty, no_setup, legs_mismatch,
}
use greenfield.Shadow.Journal.{ShadowAuditJournal, append, ensure_available}
use greenfield.Shadow.Decision.{MetaDecision, is_wait, validate_actionable, validate_legs}
use greenfield.Shadow.Runtime.{
  ShadowRuntime, or_engine, Offer, refused, Note, record_of, record_note, journaled, checked, stage,
  offer, Outcome, wait_note, risk_rejection,
}
use greenfield.Shadow.Session.{attempt, observe, observe_new, weigh_offer, conclude}
use greenfield.Shadow.Session.Committed.{or_engine-ok}

module _ {A T : Type 0} ⦃F : Floats A⦄ (C : Codec A T) (lower : String → String) where
  -- A call leaves the engine and the file of its store.
  abbrev pub Keeps : ShadowRuntime A T → Outcome C lower → Type 0
  Keeps rt out = (out.1.risk_engine ≡ rt.risk_engine) × (out.1.risk_store ≡ rt.risk_store)

  journaled-Keeps :
      (r : ShadowAuditRecord) (rt : ShadowRuntime A T)
      (made : Result Error (String × ShadowAuditJournal T))
      → Keeps rt (journaled C lower r rt made)
  journaled-Keeps r rt (err e) = (refl, refl)
  journaled-Keeps r rt (ok next) = (refl, refl)

  checked-Keeps :
      (r : ShadowAuditRecord) (rt : ShadowRuntime A T) (made : Result Error (Unit {0}))
      → Keeps rt (checked C lower r rt made)
  checked-Keeps r rt (err e) = (refl, refl)
  checked-Keeps r rt (ok done) = journaled-Keeps r rt (append C r rt.journal)

  record_note-Keeps : (n : Note) (rt : ShadowRuntime A T) → Keeps rt (record_note C lower n rt)
  unfolding record_note
  record_note-Keeps n rt =
      checked-Keeps (record_of rt.context n) rt (record_post_init (record_of rt.context n))

  attempt-Keeps :
      {B : Type 0} (call : Result Error B) (next : B → Outcome C lower) (rt : ShadowRuntime A T)
      → ((b : B) → call ≡ ok b → Keeps rt (next b))
      → Keeps rt (attempt C lower call next rt)
  attempt-Keeps (err e) next rt then_keeps = (refl, refl)
  attempt-Keeps (ok b) next rt then_keeps = then_keeps b refl

  from_snapshot-kill :
      (config : PortfolioRiskConfig A) (s : PortfolioRiskSnapshot A) (e : PortfolioRiskEngine A)
      → from_snapshot config s ≡ ok e
      → e.kill_switch_reason ≡ s.kill_switch_reason
  unfolding from_snapshot
  from_snapshot-kill config s e h =
      let (done, few, made) =
        >>=-eq-ok
          (raise_if (ltb config.maximum_open_positions (length s.positions)) too_many_positions) _
          h in
      ap (λ x. x.kill_switch_reason) (sym (ok_eq _ e made))

  stage-kill :
      (rt : ShadowRuntime A T) (e : PortfolioRiskEngine A)
      → stage C lower rt ≡ ok e
      → e.kill_switch_reason ≡ rt.risk_engine.kill_switch_reason
  unfolding stage
  stage-kill rt e h =
      let (s, took, h1) = >>=-eq-ok (or_engine (snapshot rt.risk_engine)) _ h in
      let took_it = or_engine-ok C (snapshot rt.risk_engine) s took in
      let built = or_engine-ok C (from_snapshot rt.risk_engine.config s) e h1 in
      from_snapshot-kill rt.risk_engine.config s e built
      ∙ ap (λ x. x.kill_switch_reason) (sym (snapshot-fields rt.risk_engine s took_it).0)

  validate-some :
      (meta : MetaDecision A) (ps : List (PortfolioEntryProposal A))
      → validate_actionable lower meta ps ≡ ok tt
      → is_empty ps ≡ false
  unfolding validate_actionable validate_legs
  validate-some meta ps h =
      let (legs, at_legs, h1) = >>=-eq-ok (or_raise meta.selected_setup no_setup) _ h in
      let (engine_id, at_id, h2) = >>=-eq-ok (or_raise meta.selected_engine_id no_setup) _ h1 in
      let (done, mapped, h3) =
        >>=-eq-ok (raise_if (is_empty ps || not (length ps == length legs)) legs_mismatch) _ h2 in
      ground arith

  on_false :
      (b : Bool) (x y : Result Error (Offer A)) (o : Offer A)
      → b ≡ false
      → (elim b [ false ↦ x | true ↦ y ]) ≡ ok o
      → x ≡ ok o
  on_false false x y o n h = h
  on_false true x y o n h = absurd (ground arith)

  offer-killed :
      (ps : List (PortfolioEntryProposal A)) (equity : A) (e : PortfolioRiskEngine A)
      (ds : List (PortfolioRiskDecision A)) (o : Offer A)
      → is_empty ps ≡ false
      → is_some e.kill_switch_reason ≡ true
      → offer C lower ps equity e ds ≡ ok o
      → (all : List (PortfolioRiskDecision A)) × (d : PortfolioRiskDecision A) × (o ≡ refused all d)
  unfolding offer
  offer-killed [] equity e ds o n on h = absurd (ground arith)
  offer-killed (p ∷ ps) equity e ds o n on h =
      let (d, evaluated, h1) = >>=-eq-ok (or_engine (evaluate_entry p equity e).0) _ h in
      let decided = or_engine-ok C (evaluate_entry p equity e).0 d evaluated in
      elim (Bool-cases d.approved) [
        | inl allowed ↦
            absurd
              (ground (arith, (evaluate_entry-IsClear p equity e d decided allowed).not_killed))
        | inr refusal ↦ (ds ++ d ∷ [], d, sym (ok_eq _ o (on_false d.approved _ _ o refusal h1)))
      ]

  weigh_offer-killed :
      (meta : MetaDecision A) (ps : List (PortfolioEntryProposal A)) (equity : A)
      (rt : ShadowRuntime A T) (o : Offer A)
      → is_some rt.risk_engine.kill_switch_reason ≡ true
      → weigh_offer C lower meta ps equity rt ≡ ok o
      → (all : List (PortfolioRiskDecision A)) × (d : PortfolioRiskDecision A) × (o ≡ refused all d)
  unfolding weigh_offer
  weigh_offer-killed meta ps equity rt o on h =
      let (done, valid, h1) = >>=-eq-ok (validate_actionable lower meta ps) _ h in
      let (e, staged, h2) = >>=-eq-ok (stage C lower rt) _ h1 in
      offer-killed ps equity e [] o (validate-some meta ps valid)
        (subst (λ r. is_some r ≡ true) (sym (stage-kill rt e staged)) on) h2

  conclude-Keeps :
      (id : String) (meta : MetaDecision A) (ps : List (PortfolioEntryProposal A))
      (rt : ShadowRuntime A T) (ds : List (PortfolioRiskDecision A)) (d : PortfolioRiskDecision A)
      → Keeps rt (conclude C lower id meta ps rt (refused ds d))
  unfolding conclude
  conclude-Keeps id meta ps rt ds d =
      record_note-Keeps
        (risk_rejection C lower id meta ps ds ("PORTFOLIO_RISK_REJECTED" ∷ d.reason ∷ [])) rt

  observe_new-Keeps :
      (meta : MetaDecision A) (id : String) (ps : List (PortfolioEntryProposal A)) (equity : A)
      (rt : ShadowRuntime A T)
      → is_some rt.risk_engine.kill_switch_reason ≡ true
      → Keeps rt (observe_new C lower meta id ps equity rt)
  unfolding observe_new
  observe_new-Keeps meta id ps equity rt on = elim (Bool-cases (is_wait meta.action)) [
    | inl waits ↦ rw waits (elim (Bool-cases (is_empty ps)) [
      | inl no_proposals ↦ rw no_proposals (record_note-Keeps (wait_note C lower id meta) rt)
      | inr proposals ↦ rw proposals (refl, refl)
    ])
    | inr acts ↦ rw acts (
        attempt-Keeps (weigh_offer C lower meta ps equity rt) (conclude C lower id meta ps rt) rt
          (λ o h.
            let (ds, d, same) = weigh_offer-killed meta ps equity rt o on h in
            subst (λ x. Keeps rt (conclude C lower id meta ps rt x)) (sym same)
              (conclude-Keeps id meta ps rt ds d)))
  ]

  -- When the kill switch of the engine of a shadow runtime is on, no observation, one that raises
  -- included, changes the engine or the file of its store.
  pub observe-Keeps :
      (meta : MetaDecision A) (id : String) (ps : List (PortfolioEntryProposal A)) (equity : A)
      (rt : ShadowRuntime A T)
      → is_some rt.risk_engine.kill_switch_reason ≡ true
      → Keeps rt (observe C lower meta id ps equity rt)
  unfolding observe
  observe-Keeps meta id ps equity rt on =
      attempt-Keeps (ensure_available C id rt.journal)
        (λ done. observe_new C lower meta id ps equity rt) rt
        (λ done h. observe_new-Keeps meta id ps equity rt on)

-- ===== src/Shadow/Runtime.antt =====
-- `ShadowRuntime` (src/execution/shadow_runtime.py). A call returns the runtime also when it raises;
-- the file of the risk store and the journal are part of it.
use greenfield.Base.{
  Bool, false, true, not, ◌||◌, Option, none, some, String, List, [], ◌∷◌, ◌++◌, map, Result, ok,
  err, ◌>>=◌, Datetime, Floats, Codec,
}
use greenfield.Portfolio.Records
use greenfield.Portfolio.Records.{
  PortfolioRiskConfig, PortfolioEntryProposal, PortfolioRiskDecision, PortfolioRiskSnapshot,
  repeats,
}
use greenfield.Portfolio.Engine.{PortfolioRiskEngine}
use greenfield.Portfolio.Entry.{evaluate_entry}
use greenfield.Portfolio.Calls.{record_open, snapshot, from_snapshot}
use greenfield.Portfolio.Store.{StoreError, save}
use greenfield.Shadow.Record.{
  Error, engine_error, store_error, ShadowStatus, wait, risk_rejected, ShadowSessionContext,
  ShadowAuditRecord, record_post_init,
}
use greenfield.Shadow.Journal.{ShadowAuditJournal, append}
use greenfield.Shadow.Decision.{MetaDecision, action_text}

pub record ShadowRuntime (A T : Type 0) : Type 0 where
  pub context : ShadowSessionContext
  pub risk_engine : PortfolioRiskEngine A
  pub risk_store : Option T
  pub journal : ShadowAuditJournal T

-- An exception of the engine or of its store passes through.
abbrev pub or_engine : {B : Type 0} → Result Records.Error B → Result Error B
or_engine (ok b) = ok b
or_engine (err e) = err engine_error

abbrev pub or_store : {B : Type 0} → Result StoreError B → Result Error B
or_store (ok b) = ok b
or_store (err e) = err store_error

-- What a sequence of proposals comes to: a refusal of the last decision, or a staged engine.
pub data Offer (A : Type 0) : Type 0 where
  refused : List (PortfolioRiskDecision A) → PortfolioRiskDecision A → Offer A
  accepted : List (PortfolioRiskDecision A) → PortfolioRiskEngine A → Offer A

-- What `_record` writes beside the context.
pub record Note : Type 0 where
  pub observation_id : String
  pub time : Datetime
  pub action : String
  pub status : ShadowStatus
  pub selected_engine_id : Option String
  pub proposal_keys : List String
  pub risk_reasons : List String
  pub reason_codes : List String
  pub risk_state_sha256 : Option String

abbrev pub record_of : ShadowSessionContext → Note → ShadowAuditRecord
record_of c n = record {
  observation_id = n.observation_id;
  session_id = c.session_id;
  decision_timestamp_utc = n.time;
  action = n.action;
  status = n.status;
  selected_engine_id = n.selected_engine_id;
  proposal_keys = n.proposal_keys;
  risk_reasons = n.risk_reasons;
  reason_codes = n.reason_codes;
  dataset_fingerprint = c.dataset_fingerprint;
  code_commit = c.code_commit;
  config_fingerprint = c.config_fingerprint;
  risk_state_sha256 = n.risk_state_sha256;
}

module _ {A T : Type 0} ⦃F : Floats A⦄ (C : Codec A T) (lower : String → String) where
  abbrev pub Outcome : Type 0
  Outcome = Result Error ShadowAuditRecord × ShadowRuntime A T

  -- what `append` has done to the journal of a runtime
  abbrev pub journaled :
      ShadowAuditRecord → ShadowRuntime A T → Result Error (String × ShadowAuditJournal T) → Outcome
  journaled r rt (err error) = (err error, rt)
  journaled r rt (ok (sum, next)) = (ok r, record rt { journal = next })

  abbrev pub checked : ShadowAuditRecord → ShadowRuntime A T → Result Error (Unit {0}) → Outcome
  checked r rt (err error) = (err error, rt)
  checked r rt (ok done) = journaled r rt (append C r rt.journal)

  -- `_record`
  unfoldable pub record_note : Note → ShadowRuntime A T → Outcome
  unfolding record_post_init append
  record_note n rt = let r = record_of rt.context n in checked r rt (record_post_init r)

  -- `PortfolioRiskEngine.from_snapshot(self.risk_engine.snapshot(), self.risk_engine.config)`
  unfoldable pub stage : ShadowRuntime A T → Result Error (PortfolioRiskEngine A)
  stage rt = do
    s ← or_engine (snapshot rt.risk_engine)
    or_engine (from_snapshot rt.risk_engine.config s)

  -- the loop of `observe` over the proposals, with the decisions so far
  unfoldable pub offer :
      List (PortfolioEntryProposal A)
      → (equity : A) → PortfolioRiskEngine A
      → List (PortfolioRiskDecision A)
      → Result Error (Offer A)
  offer [] equity e ds = ok (accepted ds e)
  offer (p ∷ ps) equity e ds = do
    d ← or_engine (evaluate_entry p equity e).0
    elim d.approved [
      | false ↦ ok (refused (ds ++ d ∷ []) d)
      | true ↦ (do
        next ← or_engine (record_open p d (evaluate_entry p equity e).1)
        offer ps equity next (ds ++ d ∷ []))
    ]

  -- An arbitrage leg was cut.
  abbrev pub is_cut : List (PortfolioEntryProposal A) → List (PortfolioRiskDecision A) → Bool
  is_cut [] ds = false
  is_cut (p ∷ ps) [] = false
  is_cut (p ∷ ps) (d ∷ ds) =
      not (F.is_close (F.magnitude d.approved_signed_notional) (F.magnitude p.signed_notional))
      || is_cut ps ds

  abbrev pub risk_rejection :
      (observation_id : String)
      → MetaDecision A
      → List (PortfolioEntryProposal A)
      → List (PortfolioRiskDecision A)
      → (reason_codes : List String) → Note
  risk_rejection id meta ps ds codes = record {
    observation_id = id;
    time = meta.decision_timestamp_utc;
    action = action_text meta.action;
    status = risk_rejected;
    selected_engine_id = meta.selected_engine_id;
    proposal_keys = map (λ p. p.key) ps;
    risk_reasons = map (λ d. d.reason) ds;
    reason_codes = codes;
    risk_state_sha256 = none;
  }

  abbrev pub wait_note : (observation_id : String) → MetaDecision A → Note
  wait_note id meta = record {
    observation_id = id;
    time = meta.decision_timestamp_utc;
    action = action_text meta.action;
    status = wait;
    selected_engine_id = none;
    proposal_keys = [];
    risk_reasons = [];
    reason_codes = meta.reason_codes;
    risk_state_sha256 = none;
  }

  -- `self.risk_store.save(staged.snapshot(), ...)`, with the new file of the store
  unfoldable pub save_staged :
      PortfolioRiskEngine A → (saved_at_utc : Datetime) → Result Error (String × T)
  save_staged e at = do s ← or_engine (snapshot e); or_store (save C s at)

  -- `self.risk_engine = staged` and `_record`, once the state has been saved
  abbrev pub settled :
      PortfolioRiskEngine A
      → (Option String → Note)
      → ShadowRuntime A T
      → Result Error (String × T)
      → Outcome
  settled e note rt (err error) = (err error, rt)
  settled e note rt (ok (sum, file)) =
      record_note (note (some sum)) (record rt { risk_engine = e; risk_store = some file })

  unfoldable pub commit_staged :
      PortfolioRiskEngine A
      → (saved_at_utc : Datetime) → (Option String → Note)
      → ShadowRuntime A T
      → Outcome
  unfolding record_note save_staged
  commit_staged e at note rt = settled e note rt (save_staged e at)

-- ===== src/State/Errors.antt =====
-- Which calls are accepted, and that a refused call changes nothing.
use tw_einvoice_rs.Base.{
  ◌≡◌, ◌≢◌, refl, sym, ap, ◌∙◌, ◌↔◌, ◌⊎◌, inl, inr, Option, none, some, List, [], ◌∷◌, ok, err, All,
  arith,
}
use tw_einvoice_rs.Results.{ProcessResult, SummaryMessage, SummaryResult}
use tw_einvoice_rs.Results.Consistency.{IsConsistent, InRange}
use tw_einvoice_rs.State.Cases.{
  foreign, inconsistent, settled, replayed, recorded, settle_again, apply_summary_message_cases,
  apply_process_result_cases,
}
use tw_einvoice_rs.State.Invariant.{matching-InRange}
use tw_einvoice_rs.State.{
  TerminalSummary, SubmissionRecord, Applied, ApplyError, from_validated_message, settle, matching,
  select, apply_process_result, apply_summary_message, apply_summary_result,
}

-- The call returned, and not an error.
abbrev pub Accepts : Option Applied → Type 0
Accepts none = ⊥
Accepts (some (r, ok o)) = Unit
Accepts (some (r, err e)) = ⊥

-- The terminal slot is free, or holds the summary that comes in.
abbrev pub Fits : Option TerminalSummary → Option TerminalSummary → Type 0
Fits old incoming = (old ≡ none) ⊎ (old ≡ incoming)

settle-Accepts :
    (r : SubmissionRecord) (o : Option TerminalSummary) (t : TerminalSummary)
    → Accepts (some (settle r o t)) ↔ Fits o (some t)
settle-Accepts r none t = unfold settle in (λ _. inl refl, λ _. tt)
settle-Accepts r (some old) t = elim (settle_again r old t) [
  | inl (same, e) ↦ (λ _. inr (ap some same), λ _. rw e tt)
  | inr (other, e) ↦ (λ h. absurd (rw e at h), λ f. ground arith)
]

-- A summary message with `i32` counts is accepted exactly when it is of this submission, is
-- consistent with the expected quantity, and no other terminal summary was settled before.
pub apply_summary_message-Accepts_iff :
    (r : SubmissionRecord) (m : SummaryMessage)
    → InRange m
    → Accepts (apply_summary_message r m) ↔ (
        (m.info.id ≡ r.message_id)
        × IsConsistent m (some r.expected_quantity)
        × Fits r.terminal (from_validated_message m))
apply_summary_message-Accepts_iff r m range = elim (apply_summary_message_cases r m range) [
  | foreign other e ↦ (λ h. absurd (rw e at h), λ h. absurd (other h.0))
  | inconsistent _ bad e ↦ (λ h. absurd (rw e at h), λ h. absurd (bad h.1))
  | settled t own v made _ e ↦ (
    λ h. (own, v, rw made ((settle-Accepts r r.terminal t).0 (rw e at h))),
    λ h. rw e ((settle-Accepts r r.terminal t).1 (rw made at (h.2))),
  )
]

-- A refused process result changes nothing, and is one of another message.
pub apply_process_result_error :
    (r : SubmissionRecord) (p : ProcessResult) {s : SubmissionRecord} {x : ApplyError}
    → apply_process_result r p ≡ (s, err x)
    → (s ≡ r) × (p.message.id ≢ r.message_id)
apply_process_result_error r p {s} {x} h = elim (apply_process_result_cases r p) [
  | foreign other e ↦ (ap (λ a. a.0) (sym h ∙ e), other)
  | replayed _ _ e ↦ cc
  | recorded _ _ e ↦ cc
]

settle_error :
    (r : SubmissionRecord) (o : Option TerminalSummary) (t : TerminalSummary) {s : SubmissionRecord}
    {x : ApplyError}
    → settle r o t ≡ (s, err x)
    → s ≡ r
settle_error r none t h = unfold settle in cc
settle_error r (some old) t h = elim (settle_again r old t) [
  | inl (_, e) ↦ cc
  | inr (_, e) ↦ ap (λ a. a.0) (sym h ∙ e)
]

message_error :
    (r : SubmissionRecord) (m : SummaryMessage) {s : SubmissionRecord} {x : ApplyError}
    → InRange m
    → apply_summary_message r m ≡ some (s, err x)
    → s ≡ r
message_error r m {s} {x} range h = elim (apply_summary_message_cases r m range) [
  | foreign _ e ↦ cc
  | inconsistent _ _ e ↦ cc
  | settled t _ _ _ _ e ↦ settle_error r r.terminal t {s = s} {x = x} (cc)
]

select_error :
    (r : SubmissionRecord) (ms : List SummaryMessage) {s : SubmissionRecord} {x : ApplyError}
    → All InRange ms
    → select r ms ≡ some (s, err x)
    → s ≡ r
unfolding select
select_error r [] range h = cc
select_error r (m ∷ []) range h = message_error r m range.0 h
select_error r (m ∷ n ∷ ms) range h = cc

-- A summary result with `i32` counts that is refused leaves the record as it was.
pub apply_summary_result_error :
    (r : SubmissionRecord) (result : SummaryResult) {s : SubmissionRecord} {x : ApplyError}
    → All InRange result.messages
    → apply_summary_result r result ≡ some (s, err x)
    → s ≡ r
unfolding apply_summary_result
apply_summary_result_error r result range h =
    select_error r (matching r.message_id result.messages)
      (matching-InRange r.message_id result.messages range) h

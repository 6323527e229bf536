-- ===== src/State/Order.antt =====
-- The transport state after several calls, and calls whose order does not matter.
use Prim.Native.Nat.{max}
use mathlib.Core.Path.{fun_ext}
use tw_einvoice_rs.Base.{
  ap₂, ℕ, ◌≡◌, refl, sym, ap, ◌∙◌, Option, none, some, List, [], ◌∷◌, ◌++◌, map, if◌then◌else◌, not,
  ◌&&◌, str_eq, Str, is_empty, Option-cases, inl, inr, arith,
}
use tw_einvoice_rs.Results.{validation_issues, ProcessResult, SummaryMessage}
use tw_einvoice_rs.State.Cases.{settle_again}
use tw_einvoice_rs.State.Invariant.{raise, advance_transport_lem}
use tw_einvoice_rs.State.{
  TransportState, rank, process_observed, summary_observed, TerminalSummary, SubmissionRecord,
  advances, applies_process, applies_message, advance_transport, ensure_message_id, contains_result,
  settle, apply_process_result, from_validated_message, apply_summary_message, after, step,
  and_then, run,
}

-- The furthest of some transport states.
pub furthest : ℕ → List TransportState → ℕ
furthest n [] = n
furthest n (t ∷ ts) = furthest (max n (rank t)) ts

rank-raise-max : (s t : TransportState) → rank (raise s t) ≡ max (rank s) (rank t)
rank-raise-max s t = ground arith

-- Requests to advance, in any order and number, take the record to the furthest of its own state
-- and the requested ones, and change nothing else.
pub run-advances :
    (r : SubmissionRecord) (ts : List TransportState)
    → (s : TransportState) × (run r (map advances ts) ≡ some (record r { transport = s }))
      × (rank s ≡ furthest (rank r.transport) ts)
unfolding run step furthest
run-advances r [] = (r.transport, refl, refl)
run-advances r (t ∷ ts) =
    let (s, e, f) = run-advances (record r { transport = raise r.transport t }) ts in
    (
      s,
      ap (λ x. run x (map advances ts)) (advance_transport_lem r t) ∙ e,
      f ∙ ap (λ n. furthest n ts) (rank-raise-max r.transport t),
    )

raise_comm : (s t u : TransportState) → raise (raise s t) u ≡ raise (raise s u) t
raise_comm s t u = ground arith

-- What a process result does to the list of results and to the transport state.
recorded_in : SubmissionRecord → ProcessResult → List ProcessResult × TransportState
unfolding contains_result
recorded_in r p =
    if str_eq p.message.id r.message_id && not (contains_result p r.process_results)
    then (r.process_results ++ p ∷ [], raise r.transport process_observed)
    else (r.process_results, r.transport)

process_effect :
    (r : SubmissionRecord) (p : ProcessResult)
    → (apply_process_result r p).0
      ≡ record r { process_results = (recorded_in r p).0; transport = (recorded_in r p).1 }
unfolding recorded_in apply_process_result ensure_message_id advance_transport
process_effect r p = ground arith

-- What a summary message does to the terminal summary and to the transport state.
settled_in :
    Option TerminalSummary
    → TransportState
    → TerminalSummary
    → Option TerminalSummary × TransportState
settled_in none s t = (some t, raise s summary_observed)
settled_in (some old) s t = (some old, s)

settle_effect :
    (r : SubmissionRecord) (o : Option TerminalSummary) (t : TerminalSummary)
    → r.terminal ≡ o
    → (settle r o t).0 ≡ record r {
      terminal = (settled_in o r.transport t).0;
      transport = (settled_in o r.transport t).1;
    }
unfolding settled_in
settle_effect r none t e =
    unfold settle in advance_transport_lem (record r { terminal = some t }) summary_observed
settle_effect r (some old) t e = ground (arith, settle_again r old t)

-- What the checks make of a summary message: a panic, a refusal or a summary.
checked : Option TerminalSummary → Option (Option TerminalSummary)
checked none = none
checked (some t) = some (some t)

verdict : Str → ℕ → SummaryMessage → Option (Option TerminalSummary)
unfolding checked
verdict id quantity m =
    if str_eq m.info.id id && is_empty (validation_issues m (some quantity))
    then checked (from_validated_message m)
    else some none

conclude : SubmissionRecord → Option (Option TerminalSummary) → Option SubmissionRecord
unfolding settled_in
conclude r none = none
conclude r (some none) = some r
conclude r (some (some t)) = some (record r {
  terminal = (settled_in r.terminal r.transport t).0;
  transport = (settled_in r.terminal r.transport t).1;
})

message_effect :
    (r : SubmissionRecord) (m : SummaryMessage)
    → after (apply_summary_message r m) ≡ conclude r (verdict r.message_id r.expected_quantity m)
message_effect r m = elim (Option-cases (from_validated_message m)) [
  | inl e ↦ unfold verdict conclude after apply_summary_message ensure_message_id in ground arith
  | inr (t, e) ↦
      let f = settle_effect r r.terminal t refl in
      unfold verdict conclude after apply_summary_message ensure_message_id in ground (arith, f)
]

with_result : SubmissionRecord → ProcessResult → SubmissionRecord
with_result r p = record r {
  process_results = (recorded_in r p).0;
  transport = (recorded_in r p).1;
}

conclude_comm :
    (r : SubmissionRecord) (p : ProcessResult) (v : Option (Option TerminalSummary))
    → conclude (with_result r p) v ≡ and_then (conclude r v) (λ s. some (with_result s p))
unfolding conclude and_then with_result recorded_in
conclude_comm r p none = refl
conclude_comm r p (some none) = refl
conclude_comm r p (some (some t)) =
    ground (arith, raise_comm r.transport process_observed summary_observed)

effects_comm :
    (r : SubmissionRecord) (p : ProcessResult) (m : SummaryMessage)
    → after (apply_summary_message (apply_process_result r p).0 m)
      ≡ and_then (after (apply_summary_message r m)) (λ s. some (apply_process_result s p).0)
unfolding with_result and_then
effects_comm r p m =
    ap (λ s. after (apply_summary_message s m)) (effect r)
    ∙ message_effect (with_result r p) m
    ∙ conclude_comm r p (verdict r.message_id r.expected_quantity m)
    ∙ ap₂ and_then (sym (message_effect r m)) (fun_ext λ s. ap some (sym (effect s)))
  where
    effect : (s : SubmissionRecord) → (apply_process_result s p).0 ≡ with_result s p
    effect s = unfold with_result in process_effect s p

and_then_id : (o : Option SubmissionRecord) → and_then o (λ s. some s) ≡ o
unfolding and_then
and_then_id none = refl
and_then_id (some s) = refl

-- A process result and a summary message may arrive in either order: the record that results is
-- the same, whether they are accepted or refused.
pub process_message_comm :
    (r : SubmissionRecord) (p : ProcessResult) (m : SummaryMessage)
    → run r (applies_process p ∷ applies_message m ∷ [])
      ≡ run r (applies_message m ∷ applies_process p ∷ [])
unfolding run step and_then
process_message_comm r p m = and_then_id _ ∙ effects_comm r p m

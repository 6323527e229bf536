-- ===== src/State/Selection.antt =====
-- How `apply_summary_result` selects the entry of its submission.
use tw_einvoice_rs.Base.{
  ap, ap₂, ◌+◌, ◌≡◌, ◌≢◌, refl, ◌∙◌, some, List, [], ◌∷◌, ◌++◌, Str, str_eq_refl, str_eq_of_ne,
  length, length-append, err, All, arith,
}
use tw_einvoice_rs.Results.{SummaryMessage, SummaryResult}
use tw_einvoice_rs.State.{
  SubmissionRecord, summary_message_missing, duplicate_summary_message, matching, select,
  apply_summary_message, apply_summary_result,
}

-- None of the messages has this id.
abbrev pub Others : Str → List SummaryMessage → Type 0
Others id = All (λ m. m.info.id ≢ id)

matching-Others : (id : Str) (ms : List SummaryMessage) → Others id ms → matching id ms ≡ []
unfolding matching
matching-Others id [] h = refl
matching-Others id (m ∷ ms) h =
    ground (arith, str_eq_of_ne m.info.id id h.0, matching-Others id ms h.1)

matching-append :
    (id : Str) (ms ns : List SummaryMessage)
    → matching id (ms ++ ns) ≡ matching id ms ++ matching id ns
unfolding matching
matching-append id [] ns = refl
matching-append id (m ∷ ms) ns = ground (arith, matching-append id ms ns)

matching_hit :
    (id : Str) (m : SummaryMessage) (ms : List SummaryMessage)
    → m.info.id ≡ id
    → matching id (m ∷ ms) ≡ m ∷ matching id ms
unfolding matching
matching_hit id m ms h = ground (arith, h, str_eq_refl id)

matching_split :
    (id : Str) (m : SummaryMessage) (before later : List SummaryMessage)
    → m.info.id ≡ id
    → matching id (before ++ m ∷ later) ≡ matching id before ++ m ∷ matching id later
matching_split id m before later own =
    matching-append id before (m ∷ later)
    ∙ ap (λ ms. matching id before ++ ms) (matching_hit id m later own)

-- Without an entry of the submission the result is refused as missing, and the record stays.
pub apply_summary_result_missing :
    (r : SubmissionRecord) (result : SummaryResult)
    → Others r.message_id result.messages
    → apply_summary_result r result ≡ some (r, err (summary_message_missing r.message_id))
unfolding apply_summary_result select
apply_summary_result_missing r result h = rw (matching-Others r.message_id result.messages h)

-- With exactly one entry of the submission, at any place among entries of others, the result has
-- the effect of that entry alone.
pub apply_summary_result_unique :
    (r : SubmissionRecord) (result : SummaryResult) (m : SummaryMessage)
    (before later : List SummaryMessage)
    → result.messages ≡ before ++ m ∷ later
    → m.info.id ≡ r.message_id
    → Others r.message_id before
    → Others r.message_id later
    → apply_summary_result r result ≡ apply_summary_message r m
unfolding apply_summary_result select
apply_summary_result_unique r result m before later e own hb hl =
    ap (λ ms. select r (matching r.message_id ms)) e
    ∙ ap (select r) (matching_split r.message_id m before later own)
    ∙ ap₂ (λ xs ys. select r (xs ++ m ∷ ys)) (matching-Others r.message_id before hb)
        (matching-Others r.message_id later hl)

duplicate_select :
    (r : SubmissionRecord) (xs ys zs : List SummaryMessage) (m n : SummaryMessage)
    → select r (xs ++ m ∷ (ys ++ n ∷ zs))
      ≡ some
          (r, err (duplicate_summary_message r.message_id (length xs + length ys + length zs + 2)))
unfolding select
duplicate_select r [] [] zs m n = ground arith
duplicate_select r [] (y ∷ ys) zs m n = ground (arith, length-append ys (n ∷ zs))
duplicate_select r (x ∷ []) ys zs m n = ground (arith, length-append ys (n ∷ zs))
duplicate_select r (x ∷ y ∷ xs) ys zs m n =
    ground (arith, length-append xs (m ∷ (ys ++ n ∷ zs)), length-append ys (n ∷ zs))

-- With two entries of the submission or more, the result is refused as a duplicate, with the number
-- of its entries, and the record stays.
pub apply_summary_result_duplicate :
    (r : SubmissionRecord) (result : SummaryResult) (m n : SummaryMessage)
    (before between later : List SummaryMessage)
    → result.messages ≡ before ++ m ∷ (between ++ n ∷ later)
    → m.info.id ≡ r.message_id
    → n.info.id ≡ r.message_id
    → let own = λ (ms : List SummaryMessage). length (matching r.message_id ms) in
      apply_summary_result r result
      ≡ some (
        r,
        err (duplicate_summary_message r.message_id (own before + own between + own later + 2)),
      )
unfolding apply_summary_result
apply_summary_result_duplicate r result m n before between later e own own' =
    ap (λ ms. select r (matching r.message_id ms)) e
    ∙ ap (select r) (matching_split r.message_id m before (between ++ n ∷ later) own)
    ∙ ap (λ ms. select r (matching r.message_id before ++ m ∷ ms))
        (matching_split r.message_id n between later own')
    ∙ duplicate_select r _ _ _ m n

-- ===== src/Envelope/Wire/Lines.antt =====
-- The lines of a payload: carriage returns go, the text ends with a line feed, and text that is so
-- already is kept byte for byte.
use tw_einvoice_rs.Base.{
  ℕ, ◌≡◌, ◌≢◌, refl, sym, ap, ◌∙◌, true, List, [], ◌∷◌, Str, ◌==◌, if◌then◌else◌, split, Lacks,
  ends_with, arith, Bool-cases, inl, inr, cons_head, subst, ==_iff,
}
use tw_einvoice_rs.Envelope.Wire.{
  lf, cr, replace_crlf, replace_cr, drop_last_empty, split_terminator, push_lines,
  append_normalized, append_like_java_read_line,
}

-- The text, with a line feed behind it unless it ends with one.
abbrev pub terminated : Str → Str
terminated [] = lf ∷ []
terminated (c ∷ []) = if c == lf then lf ∷ [] else c ∷ lf ∷ []
terminated (c ∷ d ∷ s) = c ∷ terminated (d ∷ s)

replace_cr-Lacks : (s : Str) → Lacks cr (replace_cr s)
replace_cr-Lacks [] = tt
replace_cr-Lacks (c ∷ s) = (ground arith, replace_cr-Lacks s)

replace_cr_id : (s : Str) → Lacks cr s → replace_cr s ≡ s
replace_cr_id [] h = refl
replace_cr_id (c ∷ s) h = ground (arith, replace_cr_id s h.1)

replace_crlf_id : (s : Str) → Lacks cr s → replace_crlf s ≡ s
replace_crlf_id [] h = refl
replace_crlf_id (c ∷ []) h = refl
replace_crlf_id (c ∷ d ∷ s) h = ground (arith, replace_crlf_id (d ∷ s) h.1)

lines_cons_head :
    (c : ℕ) (ps : List Str)
    → ps ≢ [] ∷ []
    → ps ≢ []
    → push_lines (drop_last_empty (cons_head c ps)) ≡ c ∷ push_lines (drop_last_empty ps)
lines_cons_head c [] h n = absurd (n refl)
lines_cons_head c ([] ∷ []) h n = absurd (h refl)
lines_cons_head c ((d ∷ p) ∷ []) h n = refl
lines_cons_head c (p ∷ q ∷ ps) h n = refl

lines_nil :
    (ps : List Str)
    → ps ≢ []
    → push_lines (drop_last_empty ([] ∷ ps)) ≡ lf ∷ push_lines (drop_last_empty ps)
lines_nil [] n = absurd (n refl)
lines_nil (p ∷ ps) n = refl

-- The parts of a text that is not empty are not none, and not one empty part.
abbrev NotBlank : List Str → Type 0
NotBlank ps = (ps ≢ [] ∷ []) × (ps ≢ [])

cons_head-NotBlank : (c : ℕ) (ps : List Str) → NotBlank (cons_head c ps)
cons_head-NotBlank c [] = (λ h. cc, λ h. cc)
cons_head-NotBlank c (p ∷ ps) = (λ h. cc, λ h. cc)

nil-NotBlank : (ps : List Str) → ps ≢ [] → NotBlank ([] ∷ ps)
nil-NotBlank [] h = absurd (h refl)
nil-NotBlank (p ∷ ps) h = (λ e. cc, λ e. cc)

split_pos : (s : Str) → split lf s ≢ []
split_pos [] h = cc
split_pos (c ∷ s) h = elim (Bool-cases (c == lf)) [
  | inl e ↦ absurd (nonempty [] (split lf s) (rw e at h))
  | inr e ↦ absurd ((cons_head-NotBlank c (split lf s)).1 (rw e at h))
]
  where
    nonempty : (p : Str) (ps : List Str) → p ∷ ps ≢ []
    nonempty p ps h = cc

split-NotBlank : (c : ℕ) (s : Str) → NotBlank (split lf (c ∷ s))
split-NotBlank c s = elim (Bool-cases (c == lf)) [
  | inl e ↦ rw e (nil-NotBlank (split lf s) (split_pos s))
  | inr e ↦ rw e (cons_head-NotBlank c (split lf s))
]

-- The lines of a text that is not empty, each with a line feed.
lines_terminated : (c : ℕ) (s : Str) → push_lines (split_terminator lf (c ∷ s)) ≡ terminated (c ∷ s)
lines_terminated c [] = ground arith
lines_terminated c (d ∷ s) =
    let (a, b) = split-NotBlank d s in
    elim (Bool-cases (c == lf)) [
      | inl e ↦
          rw e (lines_nil (split lf (d ∷ s)) b)
          ∙ ap (λ x. lf ∷ x) (lines_terminated d s)
          ∙ ap (λ x. x ∷ terminated (d ∷ s)) (sym ((==_iff c lf).0 e))
      | inr e ↦
          rw e (lines_cons_head c (split lf (d ∷ s)) a b) ∙ ap (λ x. c ∷ x) (lines_terminated d s)
    ]

append_normalized_lem : (s : Str) → append_normalized s ≡ terminated s
unfolding append_normalized
append_normalized_lem [] = refl
append_normalized_lem (c ∷ s) = lines_terminated c s

terminated-Lacks : (s : Str) → Lacks cr s → Lacks cr (terminated s)
terminated-Lacks [] h = (omega arith, tt)
terminated-Lacks (c ∷ []) h = elim (Bool-cases (c == lf)) [
  | inl e ↦ rw e (omega arith, tt)
  | inr e ↦ rw e (h.0, (omega arith, tt))
]
terminated-Lacks (c ∷ d ∷ s) h = (h.0, terminated-Lacks (d ∷ s) h.1)

ends_with-terminated : (s : Str) → ends_with (terminated s) (lf ∷ []) ≡ true
ends_with-terminated [] = refl
ends_with-terminated (c ∷ []) = ground arith
ends_with-terminated (c ∷ d ∷ s) = ground (arith, ends_with-terminated (d ∷ s))

terminated_id : (s : Str) → ends_with s (lf ∷ []) ≡ true → terminated s ≡ s
terminated_id [] h = cc
terminated_id (c ∷ []) h = ground arith
terminated_id (c ∷ d ∷ s) h = ground (arith, terminated_id (d ∷ s))

-- What is appended for a payload holds no carriage return and ends with a line feed.
pub append_like_java_read_line-Lacks :
    (s : Str)
    → Lacks cr (append_like_java_read_line s)
      × (ends_with (append_like_java_read_line s) (lf ∷ []) ≡ true)
unfolding append_like_java_read_line
append_like_java_read_line-Lacks s =
    let normalized = replace_cr (replace_crlf s) in
    let e = sym (append_normalized_lem normalized) in
    (
      subst (Lacks cr) e (terminated-Lacks normalized (replace_cr-Lacks (replace_crlf s))),
      subst (λ x. ends_with x (lf ∷ []) ≡ true) e (ends_with-terminated normalized),
    )

-- A payload with no carriage return that ends with a line feed is appended byte for byte.
pub append_like_java_read_line_id :
    (s : Str) → Lacks cr s → ends_with s (lf ∷ []) ≡ true → append_like_java_read_line s ≡ s
unfolding append_like_java_read_line
append_like_java_read_line_id s h e =
    append_normalized_lem (replace_cr (replace_crlf s))
    ∙ ap (λ x. terminated (replace_cr x)) (replace_crlf_id s h)
    ∙ ap terminated (replace_cr_id s h)
    ∙ terminated_id s e

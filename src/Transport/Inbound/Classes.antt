-- ===== src/Transport/Inbound/Classes.antt =====
-- The classes of received names: no name has two of the suffixes, and a name with none is an
-- invoice exactly when it is a common name.
use tw_einvoice_rs.Base.{
  ◌≢◌, subst, ◌≤◌, ◌≡◌, ◌↔◌, refl, sym, ap, ◌∙◌, Bool, true, false, Bool-cases, [], ◌∷◌, Str, codes,
  length, ends_with, str_eq, str_eq_iff, ◌||◌, if◌then◌else◌, Result, ok, err, arith, ◌⊎◌, inl, inr,
  leb,
}
use tw_einvoice_rs.Transport.CommonName.{MessageCommonName, FilenameError, render, render-parse}
use tw_einvoice_rs.Transport.CommonName as CommonName
use tw_einvoice_rs.Transport.Inbound.{
  E05MessageType, e0501, e0502, e0503, e0504, InboundObjectKind, process_result, summary_result,
  e05, exchange_ack, invoice, of_common_name, classify_remote_name,
}

||-true : (a b : Bool) → (a || b) ≡ true → (a ≡ true) ⊎ (b ≡ true)
||-true true b h = inl refl
||-true false b h = inr h

length-ends_with : (s t : Str) → ends_with s t ≡ true → length t ≤ length s
length-ends_with [] t h = let e = (str_eq_iff [] t).0 h in omega (arith, ap length (sym e))
length-ends_with (c ∷ s) t h = elim (||-true (str_eq (c ∷ s) t) (ends_with s t) h) [
  | inl e ↦ omega (arith, ap length (sym ((str_eq_iff (c ∷ s) t).0 e)))
  | inr e ↦ omega (arith, length-ends_with s t e)
]

-- Of two suffixes of one text, the shorter is a suffix of the longer.
shorter_suffix :
    (s t u : Str)
    → ends_with s t ≡ true
    → ends_with s u ≡ true
    → length t ≤ length u
    → ends_with u t ≡ true
shorter_suffix [] t u a b h = subst (λ v. ends_with v t ≡ true) ((str_eq_iff [] u).0 b) a
shorter_suffix (c ∷ s) t u a b h = elim (||-true (str_eq (c ∷ s) u) (ends_with s u) b) [
  | inl e ↦ subst (λ v. ends_with v t ≡ true) ((str_eq_iff (c ∷ s) u).0 e) a
  | inr later ↦ elim (||-true (str_eq (c ∷ s) t) (ends_with s t) a) [
    | inr e ↦ shorter_suffix s t u e later h
    | inl e ↦
        absurd (omega (arith, length-ends_with s u later, ap length ((str_eq_iff (c ∷ s) t).0 e)))
  ]
]

-- A name with one suffix lacks the others, of which none is a suffix of another.
excluded :
    (name t u : Str)
    → ends_with name t ≡ true
    → (if leb (length t) (length u) then ends_with u t else ends_with t u) ≡ false
    → ends_with name u ≡ false
excluded name t u a apart = elim (Bool-cases (ends_with name u)) [
  | inr e ↦ e
  | inl b ↦ elim (Bool-cases (leb (length t) (length u))) [
    | inl le ↦ let e = shorter_suffix name t u a b (ground arith) in absurd (ground arith)
    | inr gt ↦ let e = shorter_suffix name u t b a (ground arith) in absurd (ground arith)
  ]
]

-- The suffixes of the control files and what they stand for.
pub data Suffix : Type 0 where
  is_process is_summary is_ack : Suffix
  is_e05 : E05MessageType → Suffix

abbrev pub suffix : Suffix → Str
suffix is_process = codes "ProcessResult"
suffix is_summary = codes "SummaryResult"
suffix is_ack = codes "Ack"
suffix (is_e05 e0501) = codes "E0501"
suffix (is_e05 e0502) = codes "E0502"
suffix (is_e05 e0503) = codes "E0503"
suffix (is_e05 e0504) = codes "E0504"

abbrev pub kind : Suffix → InboundObjectKind
kind is_process = process_result
kind is_summary = summary_result
kind is_ack = exchange_ack
kind (is_e05 t) = e05 t

-- A name with the suffix of a control file is of that class, whatever is before it: the order of
-- the tests does not matter, as no name has two of the suffixes.
pub classify_suffix :
    (name : Str) (s : Suffix)
    → ends_with name (suffix s) ≡ true
    → classify_remote_name name ≡ kind s
unfolding classify_remote_name
classify_suffix name is_process h = rw h refl
classify_suffix name is_summary h =
    rw (excluded name (suffix is_summary) (suffix is_process) h refl) (rw h refl)
classify_suffix name is_ack h = rw (excluded name (suffix is_ack) (suffix is_process) h refl) (
    rw (excluded name (suffix is_ack) (suffix is_summary) h refl) (
      rw (excluded name (suffix is_ack) (suffix (is_e05 e0501)) h refl) (
        rw (excluded name (suffix is_ack) (suffix (is_e05 e0502)) h refl) (
          rw (excluded name (suffix is_ack) (suffix (is_e05 e0503)) h refl)
            (rw (excluded name (suffix is_ack) (suffix (is_e05 e0504)) h refl) (rw h refl))))))
classify_suffix name (is_e05 e0501) h =
    rw (excluded name (suffix (is_e05 e0501)) (suffix is_process) h refl)
      (rw (excluded name (suffix (is_e05 e0501)) (suffix is_summary) h refl) (rw h refl))
classify_suffix name (is_e05 e0502) h =
    rw (excluded name (suffix (is_e05 e0502)) (suffix is_process) h refl) (
      rw (excluded name (suffix (is_e05 e0502)) (suffix is_summary) h refl)
        (rw (excluded name (suffix (is_e05 e0502)) (suffix (is_e05 e0501)) h refl) (rw h refl)))
classify_suffix name (is_e05 e0503) h =
    rw (excluded name (suffix (is_e05 e0503)) (suffix is_process) h refl) (
      rw (excluded name (suffix (is_e05 e0503)) (suffix is_summary) h refl) (
        rw (excluded name (suffix (is_e05 e0503)) (suffix (is_e05 e0501)) h refl)
          (rw (excluded name (suffix (is_e05 e0503)) (suffix (is_e05 e0502)) h refl) (rw h refl))))
classify_suffix name (is_e05 e0504) h =
    rw (excluded name (suffix (is_e05 e0504)) (suffix is_process) h refl) (
      rw (excluded name (suffix (is_e05 e0504)) (suffix is_summary) h refl) (
        rw (excluded name (suffix (is_e05 e0504)) (suffix (is_e05 e0501)) h refl) (
          rw (excluded name (suffix (is_e05 e0504)) (suffix (is_e05 e0502)) h refl) (
            rw (excluded name (suffix (is_e05 e0504)) (suffix (is_e05 e0503)) h refl)
              (rw h refl)))))

abbrev Suffixed : Str → Type 0
Suffixed name = (s : Suffix) × (ends_with name (suffix s) ≡ true)

suffix_at :
    (name : Str) (s : Suffix) {P : Type 0}
    → (ends_with name (suffix s) ≡ false → Suffixed name ⊎ P)
    → Suffixed name ⊎ P
suffix_at name s f = elim (Bool-cases (ends_with name (suffix s))) [
  | inl e ↦ inl (s, e)
  | inr e ↦ f e
]

suffix_cases : (name : Str) → Suffixed name ⊎ ((s : Suffix) → ends_with name (suffix s) ≡ false)
suffix_cases name = suffix_at name is_process λ p. suffix_at name is_summary λ s.
    suffix_at name is_ack λ a. suffix_at name (is_e05 e0501) λ b. suffix_at name (is_e05 e0502) λ c.
      suffix_at name (is_e05 e0503) λ d. suffix_at name (is_e05 e0504) λ e. inr λ x.
        elim x as (λ k. ends_with name (suffix k) ≡ false) [
          | is_process ↦ p
          | is_summary ↦ s
          | is_ack ↦ a
          | is_e05 e0501 ↦ b
          | is_e05 e0502 ↦ c
          | is_e05 e0503 ↦ d
          | is_e05 e0504 ↦ e
        ]

classify_plain :
    (name : Str)
    → ((s : Suffix) → ends_with name (suffix s) ≡ false)
    → classify_remote_name name ≡ of_common_name (CommonName.parse name)
unfolding classify_remote_name
classify_plain name h = rw (h is_process) (
    rw (h is_summary) (
      rw (h (is_e05 e0501)) (
        rw (h (is_e05 e0502))
          (rw (h (is_e05 e0503)) (rw (h (is_e05 e0504)) (rw (h is_ack) refl))))))

invoice_of :
    (r : Result MessageCommonName FilenameError) {c : MessageCommonName}
    → of_common_name r ≡ invoice c
    → r ≡ ok c
invoice_of (ok c) h = cc
invoice_of (err e) h = cc

kind_not_invoice : (s : Suffix) (c : MessageCommonName) → kind s ≢ invoice c
kind_not_invoice is_process c h = cc
kind_not_invoice is_summary c h = cc
kind_not_invoice is_ack c h = cc
kind_not_invoice (is_e05 t) c h = cc

-- A received name is taken for an invoice exactly when it has no suffix of a control file and is
-- a common name; the invoice's common name is what was parsed.
pub classify_invoice_iff :
    (name : Str) (c : MessageCommonName)
    → (classify_remote_name name ≡ invoice c)
      ↔ (((s : Suffix) → ends_with name (suffix s) ≡ false) × (CommonName.parse name ≡ ok c))
classify_invoice_iff name c = elim (suffix_cases name) [
  | inl (s, e) ↦ (
    λ h. absurd (kind_not_invoice s c (sym (classify_suffix name s e) ∙ h)),
    λ h. absurd (let f = h.0 s in cc),
  )
  | inr plain ↦ (
    λ h. (plain, invoice_of (CommonName.parse name) (sym (classify_plain name plain) ∙ h)),
    λ h. classify_plain name plain ∙ ap of_common_name (h.1),
  )
]

-- ===== src/Transport/PackFilename.antt =====
-- crates/einvoice-transport/src/filename.rs: `TurnkeyPackFilename`, the local name of a pack.
use tw_einvoice_rs.Base.{
  ℕ, ◌≡◌, ◌≢◌, refl, subst, false, Bool-cases, sym, ap, ◌∙◌, Option, none, some, [], ◌∷◌, ◌++◌, Str,
  is_empty, if◌then◌else◌, rsplit_once, rsplit_once-append, rsplit_once-some, Result, ok, err,
  ◌>>=◌, arith, ℤ, IsI32, parse_i32, print_i32, parse_i32-print_i32, print_i32-Lacks, Lacks, join,
  append_assoc, eq_of_ok, eq_of_some, inl, inr,
}
use tw_einvoice_rs.Transport.CommonName.{
  MessageCommonName, FilenameError, invalid_pack_filename, invalid_pack_count, render-parse,
}
use tw_einvoice_rs.Transport.CommonName as CommonName

pub record TurnkeyPackFilename : Type 0 where
  pub source_name : Str
  pub from_party : Str
  pub to_party : Str
  pub common_name : MessageCommonName
  pub pack_count : ℤ

-- The five parts of `value.rsplitn(5, '_')`.
pub record PackParts : Type 0 where
  pub source : Str
  pub from : Str
  pub to : Str
  pub common : Str
  pub count : Str

abbrev underscore : ℕ
underscore = b'_'

-- What `k` makes of the parts before and after the last underscore, where there is one.
abbrev with_last {ℓ} : {A : Type ℓ} → Option (Str × Str) → (Str → Str → Option A) → Option A
with_last none k = none
with_last (some (before, after)) k = k before after

-- None where one of the five `parts.next()` is.
unfoldable pub pack_parts : Str → Option PackParts
pack_parts value = with_last (rsplit_once underscore value) λ rest count.
    with_last (rsplit_once underscore rest) λ rest common.
      with_last (rsplit_once underscore rest) λ rest to.
        with_last (rsplit_once underscore rest) λ source from.
          some (record { source = source; from = from; to = to; common = common; count = count })

abbrev pub of_common :
    PackParts
    → ℤ
    → Result MessageCommonName FilenameError
    → Result TurnkeyPackFilename FilenameError
of_common parts count common = common >>= λ c. ok (record {
  source_name = parts.source;
  from_party = parts.from;
  to_party = parts.to;
  common_name = c;
  pack_count = count;
})

abbrev pub of_count : PackParts → Option ℤ → Result TurnkeyPackFilename FilenameError
of_count parts none = err invalid_pack_count
of_count parts (some count) = of_common parts count (CommonName.parse parts.common)

unfoldable pub of_parts : Option PackParts → Result TurnkeyPackFilename FilenameError
of_parts none = err invalid_pack_filename
of_parts (some parts) =
    if is_empty parts.source
    then err invalid_pack_filename
    else of_count parts (parse_i32 parts.count)

unfoldable pub parse : Str → Result TurnkeyPackFilename FilenameError
parse value = of_parts (pack_parts value)

abbrev pub join_parts : PackParts → Str
join_parts p = join underscore (p.source ∷ p.from ∷ p.to ∷ p.common ∷ p.count ∷ [])

abbrev pub render : TurnkeyPackFilename → Str
render f = join_parts (record {
  source = f.source_name;
  from = f.from_party;
  to = f.to_party;
  common = CommonName.render f.common_name;
  count = print_i32 f.pack_count;
})

abbrev pub remote_filename : TurnkeyPackFilename → Str
remote_filename f = CommonName.render f.common_name

-- No underscore but in the source name.
pub data IsSplittable (p : PackParts) : Type 0 where
  splittable :
      Lacks underscore p.from
      → Lacks underscore p.to
      → Lacks underscore p.common
      → Lacks underscore p.count
      → IsSplittable p

grouped : (p : PackParts) → Str
grouped p =
    (((p.source ++ underscore ∷ p.from) ++ underscore ∷ p.to) ++ underscore ∷ p.common)
    ++ underscore ∷ p.count

grouped_eq : (p : PackParts) → join_parts p ≡ grouped p
unfolding grouped
grouped_eq p = simp append_assoc

is_empty_of_ne : (s : Str) → s ≢ [] → is_empty s ≡ false
is_empty_of_ne [] h = absurd (h refl)
is_empty_of_ne (c ∷ s) h = refl

pack_parts-join_parts : (p : PackParts) → IsSplittable p → pack_parts (join_parts p) ≡ some p
unfolding pack_parts grouped
pack_parts-join_parts p (splittable f t c n) =
    ap pack_parts (grouped_eq p)
    ∙ rw (rsplit_once-append underscore _ p.count n) (
        rw (rsplit_once-append underscore _ p.common c) (
          rw (rsplit_once-append underscore _ p.to t)
            (rw (rsplit_once-append underscore _ p.from f) refl)))

with_last_some :
    {A P : Type 0} (o : Option (Str × Str)) (k : Str → Str → Option A) {x : A}
    → with_last o k ≡ some x
    → ((a b : Str) → o ≡ some (a, b) → k a b ≡ some x → P)
    → P
with_last_some none k h f = cc
with_last_some (some (a, b)) k h f = f a b refl h

join_parts-pack_parts :
    (value : Str) {p : PackParts} → pack_parts value ≡ some p → join_parts p ≡ value
unfolding pack_parts grouped
join_parts-pack_parts value {p} h =
    let last = λ (s a b : Str) (e : rsplit_once underscore s ≡ some (a, b)).
      rsplit_once-some underscore s e in
    with_last_some (rsplit_once underscore value) _ h λ a count ea ha.
      with_last_some (rsplit_once underscore a) _ ha λ b common eb hb.
        with_last_some (rsplit_once underscore b) _ hb λ c to ec hc.
          with_last_some (rsplit_once underscore c) _ hc λ source from ed hd.
            ap join_parts (sym (eq_of_some hd))
            ∙ grouped_eq _
            ∙ sym (
                last value a count ea
                ∙ ap (λ s. s ++ underscore ∷ count)
                    (last a b common eb
                      ∙ ap (λ s. s ++ underscore ∷ common)
                          (last b c to ec
                            ∙ ap (λ s. s ++ underscore ∷ to) (last c source from ed))))

-- The parts of a pack's name, with its count as text.
abbrev pub parts_of : TurnkeyPackFilename → Str → PackParts
parts_of f count = record {
  source = f.source_name;
  from = f.from_party;
  to = f.to_party;
  common = CommonName.render f.common_name;
  count = count;
}

-- A pack's name with a source name, with a common name that is one, with no underscore behind the
-- source name, and with an `i32` count is read back from its rendering. The source name may hold
-- underscores.
pub parse-render :
    (f : TurnkeyPackFilename)
    → f.source_name ≢ []
    → CommonName.parse (CommonName.render f.common_name) ≡ ok f.common_name
    → Lacks underscore f.from_party
    → Lacks underscore f.to_party
    → Lacks underscore (CommonName.render f.common_name)
    → IsI32 f.pack_count
    → parse (render f) ≡ ok f
unfolding parse of_parts
parse-render f source common from to name range =
    let split =
      pack_parts-join_parts (parts_of f (print_i32 f.pack_count))
        (splittable from to name (print_i32-Lacks underscore f.pack_count (omega arith))) in
    ap of_parts split
    ∙ rw (is_empty_of_ne f.source_name source) (
        ap (of_count (parts_of f (print_i32 f.pack_count))) (parse_i32-print_i32 f.pack_count range)
        ∙ ap (of_common (parts_of f (print_i32 f.pack_count)) f.pack_count) common)

of_common_ok :
    (p : PackParts) (n : ℤ) (r : Result MessageCommonName FilenameError) {f : TurnkeyPackFilename}
    → CommonName.parse p.common ≡ r
    → of_common p n r ≡ ok f
    → (p ≡ parts_of f p.count) × (f.source_name ≡ p.source) × (f.pack_count ≡ n)
of_common_ok p n (err e) h g = cc
of_common_ok p n (ok c) h g =
    subst (λ f. (p ≡ parts_of f p.count) × (f.source_name ≡ p.source) × (f.pack_count ≡ n))
      (eq_of_ok g) (ap (λ x. record p { common = x }) (sym (render-parse p.common h)), refl, refl)

of_count_ok :
    (p : PackParts) (o : Option ℤ) {f : TurnkeyPackFilename}
    → of_count p o ≡ ok f
    → (p ≡ parts_of f p.count) × (f.source_name ≡ p.source) × (o ≡ some f.pack_count)
of_count_ok p none h = cc
of_count_ok p (some n) h =
    let (parts, source, count) = of_common_ok p n (CommonName.parse p.common) refl h in
    (parts, source, ap some (sym count))

of_parts_ok :
    (o : Option PackParts) {f : TurnkeyPackFilename}
    → of_parts o ≡ ok f
    → (count : Str) × (o ≡ some (parts_of f count))
      × (f.source_name ≢ [])
      × (parse_i32 count ≡ some f.pack_count)
unfolding of_parts
of_parts_ok none h = cc
of_parts_ok (some p) {f} h = elim (Bool-cases (is_empty p.source)) [
  | inl empty ↦ absurd (not_ok _ (rw empty at h))
  | inr source ↦
      let (parts, same, count) = of_count_ok p (parse_i32 p.count) {f = f} (rw source at h) in
      (p.count, ap some parts, λ e. let g = ap is_empty (sym same ∙ e) in cc, count)
]
  where
    not_ok : (e : FilenameError) → ◌≢◌ {A = Result TurnkeyPackFilename FilenameError} (err e) (ok f)
    not_ok e h = cc

-- A text that is parsed has a source name, and is the source name, the parties, the common name and
-- a text for the count, joined by underscores.
pub parse_parts :
    (value : Str) {f : TurnkeyPackFilename}
    → parse value ≡ ok f
    → (count : Str) × (join_parts (parts_of f count) ≡ value)
      × (f.source_name ≢ [])
      × (parse_i32 count ≡ some f.pack_count)
unfolding parse
parse_parts value h =
    let (count, e, source, c) = of_parts_ok (pack_parts value) h in
    (count, join_parts-pack_parts value e, source, c)

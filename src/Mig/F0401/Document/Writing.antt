-- ===== src/Mig/F0401/Document/Writing.antt =====
-- What the functions of `to_xml` in crates/einvoice-mig/src/f0401.rs write, element by element.
use tw_einvoice_rs.Base.{
  ◌≡◌, refl, ◌∙◌, Bool, true, not, ◌&&◌, ◌==◌, Option, none, some, List, [], ◌∷◌, ◌++◌,
  append_assoc, Str, codes, all, All, All-append, arith,
}
use tw_einvoice_rs.Mig.F0401.Xml.{push_escaped, push_text_element, push_optional, push_some}
use tw_einvoice_rs.Mig.F0401.Xml.Markup.{Token, markup, IsTag, markup-append}
use tw_einvoice_rs.Mig.F0401.Document.{Elements, nil, leaf, branch, tokens, optional, same}

abbrev pub AreTags : List Token → Type 0
AreTags = All (λ t. IsTag t.0)

-- A tag without brackets, as a test.
abbrev pub is_tag : Str → Bool
is_tag tag = all (λ c. not (c == b'<') && not (c == b'>')) tag

is_tag-IsTag : (tag : Str) → is_tag tag ≡ true → IsTag tag
is_tag-IsTag [] h = (tt, tt)
is_tag-IsTag (c ∷ tag) h = ground (arith, is_tag-IsTag tag)

-- The elements, with what follows them, are written as `out`.
pub record Writes (es : Elements) (after out : Str) : Type 0 where
  pub written : markup (tokens es) ++ after ≡ out
  pub tags : AreTags (tokens es)

pub nil_step : {after : Str} → Writes nil after after
nil_step = record { written = refl; tags = tt }

close_IsTag : (tag : Str) → IsTag tag → IsTag (b'/' ∷ tag)
close_IsTag tag h = ((omega arith, h.0), (omega arith, h.1))

pub leaf_step :
    {es : Elements} {after out : Str} (tag text : Str)
    → is_tag tag ≡ true
    → Writes es after out
    → Writes (leaf tag text es) after (push_text_element tag text ++ out)
unfolding push_text_element push_escaped
leaf_step {es} {after} {out} tag text h w =
    let t = is_tag-IsTag tag h in
    record {
      written = rw (← w.written) (simp append_assoc);
      tags = (t, (close_IsTag tag t, w.tags));
    }

pub optional_step :
    {es : Elements} {after out : Str} (tag : Str) (o : Option Str)
    → is_tag tag ≡ true
    → Writes es after out
    → Writes (optional tag same o es) after (push_optional tag o ++ out)
unfolding optional push_optional
optional_step tag none h w = w
optional_step tag (some text) h w = leaf_step tag text h w

pub some_step {ℓ} :
    {A : Type ℓ} {es : Elements} {after out : Str} (tag : Str) (f : A → Str) (o : Option A)
    → is_tag tag ≡ true
    → Writes es after out
    → Writes (optional tag f o es) after (push_some tag f o ++ out)
unfolding optional push_some
some_step tag f none h w = w
some_step tag f (some a) h w = leaf_step tag (f a) h w

-- An element around others: the tags in front of and behind what they are written as.
pub branch_step :
    {inside es : Elements} {after inner out : Str} (tag attributes : Str)
    → is_tag tag ≡ true
    → is_tag (tag ++ attributes) ≡ true
    → Writes inside (codes "</" ++ tag ++ codes ">" ++ out) inner
    → Writes es after out
    → Writes (branch tag attributes inside es) after (b'<' ∷ tag ++ attributes ++ b'>' ∷ inner)
unfolding push_escaped
branch_step {inside} {es} {after} {inner} {out} tag attributes h k v w =
    let t = is_tag-IsTag tag h in
    let u = is_tag-IsTag (tag ++ attributes) k in
    record {
      written = rw (← v.written, ← w.written) (simp (markup-append, append_assoc));
      tags = (
        u,
        All-append (λ t. IsTag t.0) (tokens inside) ((b'/' ∷ tag, []) ∷ tokens es) v.tags
            (close_IsTag tag t, w.tags),
      );
    }

-- The brackets of a longer text do not matter.
pub regroup :
    {es : Elements} {after : Str} {x y : Str} → Writes es after x → x ≡ y → Writes es after y
regroup w e = record { written = w.written ∙ e; tags = w.tags }

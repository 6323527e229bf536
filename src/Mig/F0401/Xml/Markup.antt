-- ===== src/Mig/F0401/Xml/Markup.antt =====
-- XML without declarations, and a reader of its tags and texts that does not know the writer.
use tw_einvoice_rs.Base.{
  ℕ, ◌≡◌, ◌≢◌, refl, ap, ◌∙◌, false, ◌==◌, if◌then◌else◌, List, [], ◌∷◌, ◌++◌, append_assoc,
  append-nil, Str, codes, Lacks, All, All-append, starts_with, drop, split, map, split-append,
  split-of_Lacks, arith, cons_head,
}
use tw_einvoice_rs.Mig.F0401.Xml.{push_escaped, escape_byte}

-- The entity at the start of what follows an ampersand.
abbrev pub decode : Str → Str
decode p =
    if starts_with p (codes "amp;")
    then b'&' ∷ drop 4 p
    else if starts_with p (codes "lt;")
    then b'<' ∷ drop 3 p
    else if starts_with p (codes "gt;")
    then b'>' ∷ drop 3 p
    else if starts_with p (codes "quot;")
    then 34 ∷ drop 5 p
    else if starts_with p (codes "apos;")
    then 39 ∷ drop 5 p
    else p

abbrev pub decode_all : List Str → Str
decode_all [] = []
decode_all (p ∷ ps) = decode p ++ decode_all ps

abbrev pub unite : List Str → Str
unite [] = []
unite (p ∷ ps) = p ++ decode_all ps

abbrev pub unescape : Str → Str
unescape s = unite (split b'&' s)

unite-cons_head : (c : ℕ) (ps : List Str) → unite (cons_head c ps) ≡ c ∷ unite ps
unite-cons_head c [] = refl
unite-cons_head c (p ∷ ps) = refl

-- What stands between two tags, and a tag with what follows it.
abbrev pub Token : Type 0
Token = Str × Str

abbrev pub print_token : Token → Str
print_token (tag, text) = b'<' ∷ tag ++ b'>' ∷ push_escaped text

abbrev pub markup : List Token → Str
markup [] = []
markup (t ∷ ts) = print_token t ++ markup ts

-- A piece behind `<`: the tag up to `>`, and the text behind it.
abbrev pub split_tag : Str → Token
split_tag [] = ([], [])
split_tag (c ∷ s) =
    let rest = split_tag s in if c == b'>' then ([], unescape s) else (c ∷ rest.0, rest.1)

abbrev pub read_pieces : List Str → List Token
read_pieces [] = []
read_pieces (p ∷ ps) = split_tag p ∷ read_pieces ps

abbrev pub read : Str → List Token
read s = read_pieces (drop 1 (split b'<' s))

-- An entity in front of a text is one character in front of it.
amp_lem : (e : Str) → unescape (codes "&amp;" ++ e) ≡ b'&' ∷ unescape e
amp_lem e = entity (split b'&' e)
  where
    entity :
        (ps : List Str)
        → unite ([] ∷ cons_head b'a' (cons_head b'm' (cons_head b'p' (cons_head b';' ps))))
          ≡ b'&' ∷ unite ps
    entity [] = refl
    entity (p ∷ ps) = refl

lt_lem : (e : Str) → unescape (codes "&lt;" ++ e) ≡ b'<' ∷ unescape e
lt_lem e = entity (split b'&' e)
  where
    entity :
        (ps : List Str)
        → unite ([] ∷ cons_head b'l' (cons_head b't' (cons_head b';' ps))) ≡ b'<' ∷ unite ps
    entity [] = refl
    entity (p ∷ ps) = refl

gt_lem : (e : Str) → unescape (codes "&gt;" ++ e) ≡ b'>' ∷ unescape e
gt_lem e = entity (split b'&' e)
  where
    entity :
        (ps : List Str)
        → unite ([] ∷ cons_head b'g' (cons_head b't' (cons_head b';' ps))) ≡ b'>' ∷ unite ps
    entity [] = refl
    entity (p ∷ ps) = refl

quot_lem : (e : Str) → unescape (codes "&quot;" ++ e) ≡ 34 ∷ unescape e
quot_lem e = entity (split b'&' e)
  where
    entity :
        (ps : List Str)
        → unite (
            []
            ∷ cons_head b'q' (cons_head b'u' (cons_head b'o' (cons_head b't' (cons_head b';' ps)))))
          ≡ 34 ∷ unite ps
    entity [] = refl
    entity (p ∷ ps) = refl

apos_lem : (e : Str) → unescape (codes "&apos;" ++ e) ≡ 39 ∷ unescape e
apos_lem e = entity (split b'&' e)
  where
    entity :
        (ps : List Str)
        → unite (
            []
            ∷ cons_head b'a' (cons_head b'p' (cons_head b'o' (cons_head b's' (cons_head b';' ps)))))
          ≡ 39 ∷ unite ps
    entity [] = refl
    entity (p ∷ ps) = refl

other_lem : (c : ℕ) (e : Str) → (c == b'&') ≡ false → unescape (c ∷ e) ≡ c ∷ unescape e
other_lem c e h = rw h (unite-cons_head c (split b'&' e))

unescape_cons : (c : ℕ) (e : Str) → unescape (escape_byte c ++ e) ≡ c ∷ unescape e
unescape_cons c e =
    ground (arith, amp_lem e, lt_lem e, gt_lem e, quot_lem e, apos_lem e, other_lem c e)

-- Escaping is undone by reading the entities.
pub unescape-push_escaped : (s : Str) → unescape (push_escaped s) ≡ s
unfolding push_escaped
unescape-push_escaped [] = refl
unescape-push_escaped (c ∷ s) =
    unescape_cons c (push_escaped s) ∙ ap (λ t. c ∷ t) (unescape-push_escaped s)

escape_byte-Lacks : (c : ℕ) → Lacks b'<' (escape_byte c)
escape_byte-Lacks c = ground arith

push_escaped-Lacks : (s : Str) → Lacks b'<' (push_escaped s)
unfolding push_escaped
push_escaped-Lacks [] = tt
push_escaped-Lacks (c ∷ s) =
    All-append (λ d. d ≢ b'<') (escape_byte c) (push_escaped s) (escape_byte-Lacks c)
      (push_escaped-Lacks s)

-- A tag has no bracket.
abbrev pub IsTag : Str → Type 0
IsTag tag = Lacks b'<' tag × Lacks b'>' tag

split_tag_lem :
    (tag text : Str) → IsTag tag → split_tag (tag ++ b'>' ∷ push_escaped text) ≡ (tag, text)
split_tag_lem [] text h = ap (λ t. ([], t)) (unescape-push_escaped text)
split_tag_lem (c ∷ tag) text h = ground (arith, split_tag_lem tag text (h.0.1, h.1.1))

piece_Lacks : (tag text : Str) → IsTag tag → Lacks b'<' (tag ++ b'>' ∷ push_escaped text)
piece_Lacks tag text h = All-append (λ d. d ≢ b'<') tag _ h.0 (omega arith, push_escaped-Lacks text)

abbrev piece : Token → Str
piece (tag, text) = tag ++ b'>' ∷ push_escaped text

split-markup :
    (t : Token) (ts : List Token)
    → IsTag t.0
    → All (λ t. IsTag t.0) ts
    → split b'<' (piece t ++ markup ts) ≡ piece t ∷ map piece ts
split-markup t [] h k = rw append-nil (split-of_Lacks b'<' (piece t) (piece_Lacks t.0 t.1 h))
split-markup t (u ∷ ts) h k =
    split-append b'<' (piece t) (piece u ++ markup ts) (piece_Lacks t.0 t.1 h)
    ∙ ap (λ ps. piece t ∷ ps) (split-markup u ts k.0 k.1)

read_pieces-map : (ts : List Token) → All (λ t. IsTag t.0) ts → read_pieces (map piece ts) ≡ ts
read_pieces-map [] h = refl
read_pieces-map ((tag, text) ∷ ts) h = ground (arith, split_tag_lem tag text, read_pieces-map ts)

-- What is written is read back.
pub read-markup : (ts : List Token) → All (λ t. IsTag t.0) ts → read (markup ts) ≡ ts
read-markup [] h = refl
read-markup (t ∷ ts) h =
    ap (λ ps. read_pieces ps) (split-markup t ts h.0 h.1) ∙ read_pieces-map (t ∷ ts) h

pub markup-append : (ts us : List Token) → markup (ts ++ us) ≡ markup ts ++ markup us
markup-append [] us = refl
markup-append (t ∷ ts) us = rw (markup-append ts us, append_assoc)

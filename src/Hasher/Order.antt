-- ===== src/Hasher/Order.antt =====
-- The order of the sources in a document block.
use mathlib.Core.List.{Perm}
use mathlib.Core.List.Perm
use ghostcacher.Prelude.{
  ◌≡◌, refl, sym, ap, ap₂, ◌∙◌, Bool, true, false, List, [], ◌∷◌, ◌++◌, All, map,
}
use ghostcacher.Prelude.Sort.{sort, sort-map, sort_of_perm, AllPairs, All-sort}
use ghostcacher.Text.{Text, lit, trim, split, split_whitespace, join, contains, text_le}
use ghostcacher.Text.Laws.{text_le-IsLinear, Text-set}
use ghostcacher.Text.Words.{Spaces, split_whitespace-Spaces, split_whitespace-newline}
use ghostcacher.Text.Pieces.{pieces_text, split-pieces_text, diverge, text_le-diverge}
use ghostcacher.Types.{document}
use ghostcacher.Hasher.Canonical.{one_bracket}
use ghostcacher.Hasher.{source_tag, collapse, canonicalize, canonicalize_sections}

-- What stands between one "[SOURCE:" and the next: the text of the source, and the white space
-- behind it.
pub record Section : Type 0 where
  pub body : Text
  pub gap : Text

abbrev whole : Section → Text
whole i = source_tag ++ (i.body ++ i.gap)

abbrev key : Section → Text
key i = source_tag ++ i.body

abbrev key_le : Section → Section → Bool
key_le i j = text_le (key i) (key j)

abbrev pub document_text : Text → List Section → Text
document_text preamble sections =
    pieces_text source_tag preamble (map (λ (i : Section). i.body ++ i.gap) sections)

abbrev pub Diverging : Section → Section → Type 0
Diverging i j = diverge i.body j.body ≡ true

-- A document as a client writes it: a preamble and sources, none of which holds a further tag,
-- with no white space around the document, and no source that begins with another one.
pub record IsDocument (preamble : Text) (sections : List Section) : Type 0 where
  pub preamble_untagged : contains source_tag preamble ≡ false
  pub untagged :
      All (λ t. contains source_tag t ≡ false) (map (λ (i : Section). i.body ++ i.gap) sections)
  pub gaps : All (λ i. Spaces i.gap) sections
  pub trimmed : trim (document_text preamble sections) ≡ document_text preamble sections
  pub distinct : AllPairs Diverging sections

whole-key_le : (i j : Section) → Diverging i j → text_le (whole i) (whole j) ≡ key_le i j
whole-key_le i j h = unfold text_le in text_le-diverge i.body j.body i.gap j.gap h

sort-whole :
    (is : List Section)
    → AllPairs Diverging is
    → sort text_le (map whole is) ≡ map whole (sort key_le is)
sort-whole = sort-map key_le text_le whole Diverging whole-key_le

sort-key :
    (is : List Section)
    → AllPairs Diverging is
    → sort text_le (map key is) ≡ map key (sort key_le is)
sort-key = sort-map key_le text_le key Diverging (λ i j h. refl)

words-join :
    (is : List Section)
    → All (λ i. Spaces i.gap) is
    → split_whitespace (join (lit "\n") (map whole is))
      ≡ split_whitespace (join (lit "\n") (map key is))
unfolding join
words-join [] h = refl
words-join (i ∷ []) h = split_whitespace-Spaces (key i) i.gap h.0
words-join (i ∷ j ∷ is) h =
    split_whitespace-newline (whole i) (join (lit "\n") (map whole (j ∷ is)))
    ∙ ap₂ ◌++◌ (split_whitespace-Spaces (key i) i.gap h.0) (words-join (j ∷ is) h.1)
    ∙ sym (split_whitespace-newline (key i) (join (lit "\n") (map key (j ∷ is))))

key-map :
    (is : List Section)
    → map key is ≡ map (λ (s : Text). source_tag ++ s) (map (λ (i : Section). i.body) is)
key-map [] = refl
key-map (i ∷ is) = ap (λ l. key i ∷ l) (key-map is)

tag-map :
    (is : List Section)
    → map (λ (s : Text). source_tag ++ s) (map (λ (i : Section). i.body ++ i.gap) is) ≡ map whole is
tag-map [] = refl
tag-map (i ∷ is) = ap (λ l. whole i ∷ l) (tag-map is)

-- The canonical form that a preamble and the sorted sources have.
abbrev canonical_of : Text → Text → Text
canonical_of [] joined = collapse joined
canonical_of (c ∷ r) joined = collapse (trim (c ∷ r) ++ (lit "\n" ++ joined))

canonical_of_words :
    (p s t : Text) → split_whitespace s ≡ split_whitespace t → canonical_of p s ≡ canonical_of p t
unfolding collapse
canonical_of_words [] s t e = ap (join (lit " ")) e
canonical_of_words (c ∷ r) s t e = ap (join (lit " ")) (
    split_whitespace-newline (trim (c ∷ r)) s
    ∙ ap (λ (l : List Text). split_whitespace (trim (c ∷ r)) ++ l) e
    ∙ sym (split_whitespace-newline (trim (c ∷ r)) t))

canonicalize_sections-eq :
    (p : Text) (ss : List Text)
    → canonicalize_sections (p ∷ ss)
      ≡ canonical_of p (join (lit "\n") (sort text_le (map (λ (s : Text). source_tag ++ s) ss)))
unfolding canonicalize_sections
canonicalize_sections-eq [] ss = refl
canonicalize_sections-eq (c ∷ r) ss = refl

canonicalize-document_text :
    (p : Text) (is : List Section)
    → IsDocument p is
    → canonicalize document (document_text p is)
      ≡ canonical_of p (join (lit "\n") (sort text_le (map key is)))
unfolding canonicalize
canonicalize-document_text p is d =
    ap canonicalize_sections (
      ap (split source_tag) d.trimmed
      ∙ split-pieces_text 91 (lit "SOURCE:") one_bracket p _ d.preamble_untagged d.untagged)
    ∙ canonicalize_sections-eq p _
    ∙ canonical_of_words p _ _ (
        rw (tag-map is, sort-whole is d.distinct, sort-key is d.distinct)
          (words-join (sort key_le is) (All-sort key_le (λ i. Spaces i.gap) is d.gaps)))

-- Two documents with the same preamble and the same sources in any order, whatever white space
-- follows each source, have the same canonical form, if they are as IsDocument says: no further
-- tag in a part, no source that begins like another to its end, no white space around the whole.
pub canonicalize_reorder :
    (preamble : Text) (is js : List Section)
    → IsDocument preamble is
    → IsDocument preamble js
    → Perm (map (λ (i : Section). i.body) is) (map (λ (j : Section). j.body) js)
    → canonicalize document (document_text preamble is)
      ≡ canonicalize document (document_text preamble js)
canonicalize_reorder p is js d e perm =
    canonicalize-document_text p is d
    ∙ ap (λ l. canonical_of p (join (lit "\n") l))
        (sort_of_perm text_le text_le-IsLinear Text-set (map key is) (map key js)
          (rw (key-map is, key-map js) (Perm.map (λ (s : Text). source_tag ++ s) perm)))
    ∙ sym (canonicalize-document_text p js e)

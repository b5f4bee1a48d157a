-- ===== src/Hasher/Canonical.antt =====
-- Canonical forms: white space, and which characters occur.
use ghostcacher.Prelude.{
  ◌≡◌, ◌≢◌, ◌↔◌, refl, sym, ap, ◌∙◌, ◌++◌, ◌⊎◌, inl, inr, false, All, ◌==◌, List, [], ◌∷◌,
}
use ghostcacher.Text.{Text, lit, trim, split, split_whitespace, join, contains}
use ghostcacher.Text.Words.{
  split_whitespace-join, split_whitespace-IsWord, split_whitespace-trim, split_whitespace-Spaces,
  Spaces,
}
use ghostcacher.Text.Pieces.{split_last}
use ghostcacher.Types.{BlockKind, document}
use ghostcacher.Hasher.{source_tag, collapse, canonicalize, canonicalize_sections}

split_whitespace-collapse : (s : Text) → split_whitespace (collapse s) ≡ split_whitespace s
unfolding collapse
split_whitespace-collapse s = split_whitespace-join (split_whitespace s) (split_whitespace-IsWord s)

collapse_iff : (s t : Text) → (collapse s ≡ collapse t) ↔ (split_whitespace s ≡ split_whitespace t)
collapse_iff s t = (
  λ e. sym (split_whitespace-collapse s) ∙ ap split_whitespace e ∙ split_whitespace-collapse t,
  λ e. unfold collapse in ap (join (lit " ")) e,
)

canonicalize_words :
    (kind : BlockKind) (s : Text)
    → kind ≢ document
    → split_whitespace (canonicalize kind s) ≡ split_whitespace s
unfolding canonicalize
canonicalize_words document s h = absurd (h refl)
canonicalize_words _ s h = split_whitespace-collapse (trim s) ∙ split_whitespace-trim s

canonicalize-collapse :
    (kind : BlockKind) (s : Text) → kind ≢ document → canonicalize kind s ≡ collapse s
unfolding canonicalize
canonicalize-collapse document s h = absurd (h refl)
canonicalize-collapse _ s h = (collapse_iff (trim s) s).1 (split_whitespace-trim s)

newline_Spaces : Spaces (lit "\n")
unfolding ghostcacher.Text.is_whitespace
newline_Spaces = (refl, tt)

-- The bracket that opens a tag does not come back in it.
pub one_bracket : All (λ c. (c == 91) ≡ false) (lit "SOURCE:")
one_bracket = (refl, (refl, (refl, (refl, (refl, (refl, (refl, tt)))))))

-- One piece, the preamble: nothing is sorted.
canonicalize_preamble : (s : Text) → canonicalize_sections (s ∷ []) ≡ collapse s
unfolding canonicalize_sections join ghostcacher.Prelude.Sort.sort
canonicalize_preamble [] = refl
canonicalize_preamble (c ∷ s) = (collapse_iff (trim (c ∷ s) ++ (lit "\n" ++ [])) (c ∷ s)).1 (
    split_whitespace-Spaces (trim (c ∷ s)) (lit "\n") newline_Spaces
    ∙ split_whitespace-trim (c ∷ s))

-- No document, or one in which the tag of a source does not occur.
abbrev pub Untagged : BlockKind → Text → Type 0
Untagged kind s = (kind ≢ document) ⊎ (contains source_tag (trim s) ≡ false)

canonicalize-Untagged :
    (kind : BlockKind) (s : Text) → Untagged kind s → canonicalize kind s ≡ collapse s
unfolding canonicalize
canonicalize-Untagged kind s (inl h) = canonicalize-collapse kind s h
canonicalize-Untagged document s (inr h) =
    ap canonicalize_sections (split_last 91 (lit "SOURCE:") one_bracket (trim s) h)
    ∙ canonicalize_preamble (trim s)
    ∙ (collapse_iff (trim s) s).1 (split_whitespace-trim s)
canonicalize-Untagged _ s (inr h) = (collapse_iff (trim s) s).1 (split_whitespace-trim s)

-- The canonical forms of two contents of a block that is no document, or of documents in which
-- "[SOURCE:" does not occur, are equal exactly when the contents have the same words in the same
-- order: they differ in white space alone, and nothing is sorted.
pub canonicalize_iff :
    (kind : BlockKind) (s t : Text)
    → Untagged kind s
    → Untagged kind t
    → (canonicalize kind s ≡ canonicalize kind t) ↔ (split_whitespace s ≡ split_whitespace t)
canonicalize_iff kind s t h g =
    rw (canonicalize-Untagged kind s h, canonicalize-Untagged kind t g) (collapse_iff s t)

canonicalize_sections-collapse :
    (ss : List Text) → collapse (canonicalize_sections ss) ≡ canonicalize_sections ss
unfolding canonicalize_sections join split_whitespace
canonicalize_sections-collapse [] = unfold collapse in refl
canonicalize_sections-collapse (p ∷ ss) = (collapse_iff _ _).1 (split_whitespace-collapse _)

-- A canonical form is in canonical white space, documents included: words with one space between
-- two of them and none around.
pub collapse-canonicalize :
    (kind : BlockKind) (s : Text) → collapse (canonicalize kind s) ≡ canonicalize kind s
unfolding canonicalize
collapse-canonicalize document s = canonicalize_sections-collapse (split source_tag (trim s))
collapse-canonicalize _ s = (collapse_iff _ _).1 (split_whitespace-collapse (trim s))

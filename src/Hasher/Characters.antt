-- ===== src/Hasher/Characters.antt =====
-- The characters of canonical forms and tagged blocks, and what a tagged block determines.
use ghostcacher.Prelude.{◌≡◌, List, [], ◌∷◌, ◌++◌, All, All-append, map, arith}
use ghostcacher.Prelude.Sort.{sort, All-sort}
use ghostcacher.Text.{Text, IsText, lit, trim, split_whitespace, join, text_le}
use ghostcacher.Text.Keep.{All-trim, All-split_whitespace, All-split, All-join, All-map_append}
use ghostcacher.Types.{BlockKind, system, tools, document, user}
use ghostcacher.Hasher.{source_tag, collapse, canonicalize_sections, canonicalize, tagged_block}

collapse-IsText : (s : Text) → IsText s → IsText (collapse s)
unfolding collapse
collapse-IsText s h =
    All-join _ (lit " ") (split_whitespace s) (omega arith) (All-split_whitespace _ s h)

joined-IsText :
    (ss : List Text)
    → All IsText ss
    → IsText (join (lit "\n") (sort text_le (map (λ (s : Text). source_tag ++ s) ss)))
joined-IsText ss h =
    All-join _ (lit "\n") _ (omega arith)
      (All-sort text_le IsText _ (All-map_append _ source_tag ss (omega arith) h))

sections-IsText : (ss : List Text) → All IsText ss → IsText (canonicalize_sections ss)
unfolding canonicalize_sections
sections-IsText [] h = tt
sections-IsText ([] ∷ ss) h = collapse-IsText _ (joined-IsText ss h.1)
sections-IsText ((c ∷ r) ∷ ss) h =
    collapse-IsText _
      (All-append _ (trim (c ∷ r)) _ (All-trim _ (c ∷ r) h.0) (omega arith, joined-IsText ss h.1))

pub canonicalize-IsText : (k : BlockKind) (s : Text) → IsText s → IsText (canonicalize k s)
unfolding canonicalize
canonicalize-IsText document s h =
    sections-IsText _ (All-split _ source_tag (trim s) (All-trim _ s h))
canonicalize-IsText _ s h = collapse-IsText (trim s) (All-trim _ s h)

pub tagged_block-IsText : (k : BlockKind) (s : Text) → IsText s → IsText (tagged_block k s)
unfolding tagged_block
tagged_block-IsText system s h = ground (arith, canonicalize-IsText system s h)
tagged_block-IsText tools s h = ground (arith, canonicalize-IsText tools s h)
tagged_block-IsText document s h = ground (arith, canonicalize-IsText document s h)
tagged_block-IsText user s h = ground (arith, canonicalize-IsText user s h)

pub tagged_block-inj :
    (j k : BlockKind) (s t : Text)
    → tagged_block j s ≡ tagged_block k t
    → (j ≡ k) × (canonicalize j s ≡ canonicalize k t)
unfolding tagged_block
tagged_block-inj j k s t e = ground arith

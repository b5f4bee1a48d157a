-- ===== src/Hasher/Collisions.antt =====
-- What equal prefix hashes say about the prompts.
use mathlib.Core.Option
use ghostcacher.Prelude.{
  ◌+◌, ◌<◌, ◌≡◌, ◌↔◌, refl, sym, ap, ap₂, ◌∙◌, Option, some, List, [], ◌∷◌, ◌++◌, All, map, length,
  length-append, append_split, filter, arith,
}
use ghostcacher.Text.{Text, Bytes, IsText, lit, join, as_bytes}
use ghostcacher.Text.Utf8.{as_bytes_ascii, as_bytes-inj}
use ghostcacher.Crypto.{Sha256, digest}
use ghostcacher.Float.{Float}
use ghostcacher.Types.{BlockKind, PromptBlock}
use ghostcacher.Hasher.{
  HashResult, block_sep, canonicalize, kind_tag, tagged_block, sha256_hex, hash_block,
  hash_prompt_blocks,
}
use ghostcacher.Hasher.Characters.{tagged_block-IsText, tagged_block-inj}
use ghostcacher.Hasher.Reference.{
  cacheable, hash_of, prefix_message, hash_prompt_blocks-eq-reference,
}

abbrev HasHashLength : Bytes → Type 0
HasHashLength h = length h ≡ 64

length-join-more :
    (h g : Bytes) (hs : List Bytes)
    → length (join block_sep (h ∷ g ∷ hs)) ≡ length h + (4 + length (join block_sep (g ∷ hs)))
unfolding join
length-join-more h g hs = omega (arith, length-append h (block_sep ++ join block_sep (g ∷ hs)))

-- Joined by the separator, hashes of one length can be told apart.
join-hashes-inj :
    (hs gs : List Bytes)
    → All HasHashLength hs
    → All HasHashLength gs
    → join block_sep hs ≡ join block_sep gs
    → hs ≡ gs
unfolding join
join-hashes-inj [] [] p q e = refl
join-hashes-inj [] (g ∷ []) p q e = absurd (omega (arith, ap length e))
join-hashes-inj [] (g ∷ k ∷ gs) p q e = absurd (omega (arith, ap length e, length-join-more g k gs))
join-hashes-inj (h ∷ []) [] p q e = absurd (omega (arith, ap length e))
join-hashes-inj (h ∷ []) (g ∷ []) p q e = ap (λ (b : Bytes). b ∷ []) e
join-hashes-inj (h ∷ []) (g ∷ k ∷ gs) p q e =
    absurd (omega (arith, ap length e, length-join-more g k gs))
join-hashes-inj (h ∷ l ∷ hs) [] p q e = absurd (omega (arith, ap length e, length-join-more h l hs))
join-hashes-inj (h ∷ l ∷ hs) (g ∷ []) p q e =
    absurd (omega (arith, ap length e, length-join-more h l hs))
join-hashes-inj (h ∷ l ∷ hs) (g ∷ k ∷ gs) p q e =
    let first = append_split h _ g _ (p.0 ∙ sym q.0) e in
    let rest = append_split block_sep _ block_sep _ refl first.1 in
    cc (first.0, join-hashes-inj (l ∷ hs) (k ∷ gs) p.1 q.1 rest.1)

-- The contents are texts, of Unicode scalar values.
abbrev pub AreTexts : List PromptBlock → Type 0
AreTexts = All (λ b. IsText b.content)

-- Kind and canonical content of a block.
abbrev pub canonical_block : PromptBlock → BlockKind × Text
canonical_block b = (b.kind, canonicalize b.kind b.content)

abbrev pub canonical_blocks : List PromptBlock → List (BlockKind × Text)
canonical_blocks bs = map canonical_block (cacheable bs)

AreTexts-cacheable : (bs : List PromptBlock) → AreTexts bs → AreTexts (cacheable bs)
unfolding filter
AreTexts-cacheable [] h = tt
AreTexts-cacheable (b ∷ bs) h = ground (arith, AreTexts-cacheable bs h.1)

-- What is hashed for a block.
abbrev pub message_of : PromptBlock → Bytes
message_of b = as_bytes (tagged_block b.kind b.content)

module _ (sha : Sha256) where
  -- The digests of two messages tell them apart.
  abbrev pub Told : Bytes → Bytes → Type 0
  Told a b = digest sha a ≡ digest sha b → a ≡ b

  -- They do so for the messages of blocks in the same place.
  abbrev pub AllTold : List PromptBlock → List PromptBlock → Type 0
  AllTold (x ∷ xs) (y ∷ ys) = Told (message_of x) (message_of y) × AllTold xs ys
  AllTold _ _ = Unit

  -- Two prompts do not collide: SHA-256 tells apart the two messages of their prefixes, and those of
  -- their cacheable blocks that stand in the same place. These are finitely many pairs.
  abbrev pub CollisionFree : List PromptBlock → List PromptBlock → Type 0
  CollisionFree xs ys =
      Told (prefix_message sha xs) (prefix_message sha ys) × AllTold (cacheable xs) (cacheable ys)

  sha256_hex-inj : (a b : Bytes) → sha256_hex sha a ≡ sha256_hex sha b → digest sha a ≡ digest sha b
  unfolding sha256_hex
  sha256_hex-inj a b e =
      sha.hex_encode-inj (digest sha a) (digest sha b) (sha.finalize-IsBytes _)
        (sha.finalize-IsBytes _) e

  -- A block's hash is 64 bytes.
  length-hash : (b : PromptBlock) → length (as_bytes (hash_of sha b)) ≡ 64
  unfolding hash_block sha256_hex
  length-hash b =
      let d = digest sha (as_bytes (tagged_block b.kind b.content)) in
      ap length
        (as_bytes_ascii (sha.hex_encode d) (sha.hex_encode-IsAscii d (sha.finalize-IsBytes _)))
      ∙ omega (
        arith,
        sha.length-hex_encode d,
        sha.length-finalize (sha.update sha.init (as_bytes (tagged_block b.kind b.content))),
      )

  All-length-hash :
      (bs : List PromptBlock) → All HasHashLength (map (λ b. as_bytes (hash_of sha b)) bs)
  All-length-hash [] = tt
  All-length-hash (b ∷ bs) = (length-hash b, All-length-hash bs)

  hash-IsAscii : (b : PromptBlock) → All (λ c. c < 128) (hash_of sha b)
  unfolding hash_block sha256_hex
  hash-IsAscii b = sha.hex_encode-IsAscii _ (sha.finalize-IsBytes _)

  hash_of-inj :
      (a b : PromptBlock)
      → IsText a.content
      → IsText b.content
      → Told (message_of a) (message_of b)
      → as_bytes (hash_of sha a) ≡ as_bytes (hash_of sha b)
      → canonical_block a ≡ canonical_block b
  unfolding hash_block
  hash_of-inj a b ha hb told e =
      let hashes : hash_of sha a ≡ hash_of sha b =
        sym (as_bytes_ascii _ (hash-IsAscii a)) ∙ e ∙ as_bytes_ascii _ (hash-IsAscii b) in
      let same = told (sha256_hex-inj (message_of a) (message_of b) hashes) in
      let p = tagged_block-inj a.kind b.kind a.content b.content (
        as_bytes-inj _ _ (tagged_block-IsText a.kind a.content ha)
          (tagged_block-IsText b.kind b.content hb) same) in
      ap₂ (λ k c. (k, c)) p.0 p.1

  hashes-inj :
      (xs ys : List PromptBlock)
      → AreTexts xs
      → AreTexts ys
      → AllTold xs ys
      → map (λ b. as_bytes (hash_of sha b)) xs ≡ map (λ b. as_bytes (hash_of sha b)) ys
      → map canonical_block xs ≡ map canonical_block ys
  hashes-inj [] [] hx hy t e = refl
  hashes-inj [] (y ∷ ys) hx hy t e = cc
  hashes-inj (x ∷ xs) [] hx hy t e = cc
  hashes-inj (x ∷ xs) (y ∷ ys) hx hy t e =
      cc (hash_of-inj x y hx.0 hy.0 t.0 (cc), hashes-inj xs ys hx.1 hy.1 t.1 (cc))

  hash_of-canonical :
      (a b : PromptBlock)
      → canonical_block a ≡ canonical_block b
      → as_bytes (hash_of sha a) ≡ as_bytes (hash_of sha b)
  unfolding hash_block tagged_block
  hash_of-canonical a b e =
      ap
        (λ (p : BlockKind × Text).
          as_bytes (sha256_hex sha (as_bytes (kind_tag p.0 ++ (lit ":" ++ p.1)))))
        e

  hashes-canonical :
      (xs ys : List PromptBlock)
      → map canonical_block xs ≡ map canonical_block ys
      → map (λ b. as_bytes (hash_of sha b)) xs ≡ map (λ b. as_bytes (hash_of sha b)) ys
  hashes-canonical [] [] e = refl
  hashes-canonical [] (y ∷ ys) e = cc
  hashes-canonical (x ∷ xs) [] e = cc
  hashes-canonical (x ∷ xs) (y ∷ ys) e =
      cc (hash_of-canonical x y (cc), hashes-canonical xs ys (cc))

  module _ (fl : Float) where
    -- The Redis key's hash for a prompt.
    abbrev pub prefix_of : List PromptBlock → Option Text
    prefix_of bs = Option.map (λ (r : HashResult). r.prefix) (hash_prompt_blocks sha fl bs)

    prefix_of-eq :
        (bs : List PromptBlock) → prefix_of bs ≡ some (sha256_hex sha (prefix_message sha bs))
    prefix_of-eq bs =
        ap (Option.map (λ (r : HashResult). r.prefix)) (hash_prompt_blocks-eq-reference sha fl bs)

    -- Prompts whose cacheable blocks have the same kinds and the same canonical contents, in the
    -- same order, have the same prefix hash.
    pub prefix-canonical :
        (xs ys : List PromptBlock)
        → canonical_blocks xs ≡ canonical_blocks ys
        → prefix_of xs ≡ prefix_of ys
    prefix-canonical xs ys e =
        prefix_of-eq xs
        ∙ ap (λ hs. some (sha256_hex sha (join block_sep hs)))
            (hashes-canonical (cacheable xs) (cacheable ys) e)
        ∙ sym (prefix_of-eq ys)

    -- Two prompts of Unicode texts whose messages SHA-256 tells apart, the two of the prefixes and
    -- those of the cacheable blocks in the same place, have the same prefix hash exactly when their
    -- cacheable blocks have the same kinds and the same canonical contents, in the same order.
    pub canonical-prefix :
        (xs ys : List PromptBlock)
        → AreTexts xs
        → AreTexts ys
        → CollisionFree xs ys
        → (prefix_of xs ≡ prefix_of ys) ↔ (canonical_blocks xs ≡ canonical_blocks ys)
    canonical-prefix xs ys hx hy (told, all) = (
      λ e.
          let same = told (
            sha256_hex-inj (prefix_message sha xs) (prefix_message sha ys)
              (cc (prefix_of-eq xs, prefix_of-eq ys, e))) in
          hashes-inj (cacheable xs) (cacheable ys) (AreTexts-cacheable xs hx)
            (AreTexts-cacheable ys hy) all
            (join-hashes-inj _ _ (All-length-hash (cacheable xs)) (All-length-hash (cacheable ys))
              same),
      prefix-canonical xs ys,
    )

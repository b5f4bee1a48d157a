-- ===== src/Hasher/Reference.antt =====
-- What `hash_prompt_blocks` computes, with no loop: the streamed hash, the flags and the running
-- totals are gone.
use mathlib.Core.List.{append-nil}
use mathlib.Core.Option
use ghostcacher.Prelude.{
  ℕ, ◌+◌, ◌%◌, ◌^◌, ◌≡◌, refl, sym, ◌∙◌, ◌<◌, Bool, true, false, not, Option, none, some, List, [],
  ◌∷◌, ◌++◌, map, filter, arith, if◌then◌else◌,
}
use ghostcacher.Text.{Text, Bytes, join, as_bytes}
use ghostcacher.Crypto.{Sha256}
use ghostcacher.Float.{Float}
use ghostcacher.Types.{BlockKind, system, tools, document, user, is_cacheable, PromptBlock}
use ghostcacher.Hasher.{
  HashResult, Progress, start, block_sep, sha256_hex, hash_block, estimate_tokens, compose_doc,
  hash_step, hash_loop, hash_prompt_blocks,
}

abbrev pub cacheable : List PromptBlock → List PromptBlock
cacheable = filter (λ b. is_cacheable b.kind)

abbrev pub is_kind : BlockKind → BlockKind → Bool
is_kind system system = true
is_kind tools tools = true
is_kind document document = true
is_kind user user = true
is_kind _ _ = false

abbrev pub sum : List ℕ → ℕ
sum [] = 0
sum (n ∷ ns) = n + sum ns

abbrev pub last_or {ℓ} : {A : Type ℓ} → Option A → List A → Option A
last_or o [] = o
last_or o (x ∷ xs) = last_or (some x) xs

module _ (sha : Sha256) where
  abbrev pub hash_of : PromptBlock → Text
  hash_of b = hash_block sha b.kind b.content

  -- The hashes of the blocks of one kind, in order.
  abbrev pub hashes_of : BlockKind → List PromptBlock → List Text
  hashes_of k blocks = map hash_of (filter (λ b. is_kind k b.kind) blocks)

  abbrev pub prefix_message : List PromptBlock → Bytes
  prefix_message blocks = join block_sep (map (λ b. as_bytes (hash_of b)) (cacheable blocks))

  abbrev pub chain : Option Text → List Text → Option Text
  chain o [] = o
  chain none (h ∷ hs) = chain (some h) hs
  chain (some prev) (h ∷ hs) =
      chain (some (sha256_hex sha (as_bytes (prev ++ (block_sep ++ h))))) hs

abbrev pub token_sum : Float → List PromptBlock → ℕ
token_sum fl blocks = sum (map (λ b. estimate_tokens fl b.content) (cacheable blocks))

-- The last system hash, the last tools hash, the chained document hashes, and the hash of all
-- block hashes joined by the separator.
abbrev pub reference : Sha256 → Float → List PromptBlock → HashResult
reference sha fl blocks = record {
  h_sys = last_or none (hashes_of sha system blocks);
  h_tools = last_or none (hashes_of sha tools blocks);
  h_doc = chain sha none (hashes_of sha document blocks);
  prefix = sha256_hex sha (prefix_message sha blocks);
  prefix_token_estimate = token_sum fl blocks % 2 ^ 32;
}

-- What is still fed to the hash, by whether it is the first.
abbrev rest_message : Bool → List Bytes → Bytes
rest_message true hs = join block_sep hs
rest_message false [] = []
rest_message false (h ∷ hs) = block_sep ++ (h ++ rest_message false hs)

rest_message-join :
    (h : Bytes) (hs : List Bytes) → join block_sep (h ∷ hs) ≡ h ++ rest_message false hs
unfolding join
rest_message-join h [] = sym (append-nil h)
rest_message-join h (g ∷ hs) = rw (rest_message-join g hs)

module _ (sha : Sha256) (fl : Float) where
  abbrev rest_hashes : List PromptBlock → List Bytes
  rest_hashes blocks = map (λ b. as_bytes (hash_of sha b)) (cacheable blocks)

  abbrev result : Progress sha fl → HashResult
  result p = record {
    h_sys = p.h_sys;
    h_tools = p.h_tools;
    h_doc = p.h_doc;
    prefix = sha.hex_encode (sha.finalize p.prefix_hasher);
    prefix_token_estimate = p.prefix_token_estimate;
  }

  -- The result, when `blocks` are still to come behind `p`.
  abbrev finished : List PromptBlock → Progress sha fl → HashResult
  finished blocks p = record {
    h_sys = last_or p.h_sys (hashes_of sha system blocks);
    h_tools = last_or p.h_tools (hashes_of sha tools blocks);
    h_doc = chain sha p.h_doc (hashes_of sha document blocks);
    prefix = sha.hex_encode (
        sha.finalize
          (sha.update p.prefix_hasher (rest_message p.first_block (rest_hashes blocks))));
    prefix_token_estimate = (p.prefix_token_estimate + token_sum fl blocks) % 2 ^ 32;
  }

  abbrev block : BlockKind → Text → Option Text → PromptBlock
  block k c h = record { kind = k; content = c; hash = h }

  update-feed :
      (first : Bool) (s : sha.State) (h : Bytes) (hs : List Bytes)
      → sha.update
          (sha.update (if not first then sha.update s block_sep else s) h)
          (rest_message false hs)
        ≡ sha.update s (rest_message first (h ∷ hs))
  update-feed true s h hs = rw (sha.update-append, rest_message-join h hs)
  update-feed false s h hs =
      rw (sha.update-append s block_sep h, sha.update-append s (block_sep ++ h) _) refl

  token_sum-feed : (t e n : ℕ) → ((t + e) % 2 ^ 32 + n) % 2 ^ 32 ≡ (t + (e + n)) % 2 ^ 32
  token_sum-feed t e n = omega arith

  chain-compose :
      (o : Option Text) (h : Text) (hs : List Text)
      → chain sha (some (compose_doc sha fl o h)) hs ≡ chain sha o (h ∷ hs)
  unfolding compose_doc
  chain-compose none h hs = refl
  chain-compose (some prev) h hs = refl

  LoopFinishes : List PromptBlock → Type 0
  LoopFinishes bs =
      (p : Progress sha fl)
      → p.prefix_token_estimate < 2 ^ 32
      → Option.map result (hash_loop sha fl bs p) ≡ some (finished bs p)

  feed-lt : (t e : ℕ) → (t + e) % 2 ^ 32 < 2 ^ 32
  feed-lt t e = omega arith

  loop-finished_cons :
      (k : BlockKind) (c : Text) (h : Option Text) (bs : List PromptBlock)
      → LoopFinishes bs
      → LoopFinishes (block k c h ∷ bs)
  unfolding LoopFinishes hash_loop hash_step filter is_cacheable Option.bind
  loop-finished_cons system c h bs ih p b =
      ih _ (feed-lt p.prefix_token_estimate (estimate_tokens fl c))
      ∙ cc (
        update-feed p.first_block p.prefix_hasher (as_bytes (hash_block sha system c))
            (rest_hashes bs),
        token_sum-feed p.prefix_token_estimate (estimate_tokens fl c) (token_sum fl bs),
      )
  loop-finished_cons tools c h bs ih p b =
      ih _ (feed-lt p.prefix_token_estimate (estimate_tokens fl c))
      ∙ cc (
        update-feed p.first_block p.prefix_hasher (as_bytes (hash_block sha tools c))
            (rest_hashes bs),
        token_sum-feed p.prefix_token_estimate (estimate_tokens fl c) (token_sum fl bs),
      )
  loop-finished_cons document c h bs ih p b =
      ih _ (feed-lt p.prefix_token_estimate (estimate_tokens fl c))
      ∙ cc (
        update-feed p.first_block p.prefix_hasher (as_bytes (hash_block sha document c))
            (rest_hashes bs),
        token_sum-feed p.prefix_token_estimate (estimate_tokens fl c) (token_sum fl bs),
        chain-compose p.h_doc (hash_block sha document c) (hashes_of sha document bs),
      )
  loop-finished_cons user c h bs ih p b = ih p b

  update-rest_nil : (first : Bool) (s : sha.State) → sha.update s (rest_message first []) ≡ s
  unfolding join
  update-rest_nil true s = sha.update-nil s
  update-rest_nil false s = sha.update-nil s

  token_sum_nil : (t : ℕ) → t < 2 ^ 32 → (t + 0) % 2 ^ 32 ≡ t
  token_sum_nil t b = omega arith

  loop-finished : (bs : List PromptBlock) → LoopFinishes bs
  unfolding LoopFinishes
  loop-finished [] p b =
      unfold hash_loop filter in
      cc (update-rest_nil p.first_block p.prefix_hasher, token_sum_nil p.prefix_token_estimate b)
  loop-finished (b ∷ bs) p h = loop-finished_cons b.kind b.content b.hash bs (loop-finished bs) p h

  token_sum_start : (n : ℕ) → (0 + n) % 2 ^ 32 ≡ n % 2 ^ 32
  token_sum_start n = omega arith

  -- For every prompt, `hash_prompt_blocks` returns, and its result is the reference: the
  -- `unreachable!` arm is never met, the prefix is the hash of the cacheable blocks' hashes joined
  -- by the separator, `h_sys` and `h_tools` are the last of their kind, `h_doc` chains the document
  -- hashes, and the token estimate is the sum of the blocks' estimates modulo 2^32.
  pub hash_prompt_blocks-eq-reference :
      (blocks : List PromptBlock)
      → hash_prompt_blocks sha fl blocks ≡ some (reference sha fl blocks)
  unfolding hash_prompt_blocks sha256_hex LoopFinishes
  hash_prompt_blocks-eq-reference blocks =
      loop-finished blocks (start sha fl) (omega arith) ∙ cc (token_sum_start (token_sum fl blocks))

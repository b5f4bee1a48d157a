-- ===== src/Interceptor/Extract/Turns.antt =====
-- The turns of a conversation: the last message changes, what stands before it stays.
use mathlib.Core.Option
use mathlib.Core.Option.{get_or}
use mathlib.Core.List.{append-nil}
use ghostcacher.Prelude.{
  ◌≡◌, refl, sym, ap, ap₂, ◌∙◌, Option, none, some, List, [], ◌∷◌, ◌++◌, filter, filter-append,
  arith,
}
use ghostcacher.Text.{Text, lit, text_eq}
use ghostcacher.Crypto.{Sha256}
use ghostcacher.Float.{Float}
use ghostcacher.Types.{user, is_cacheable, PromptBlock}
use ghostcacher.Json.{Value, get, as_array, SerdeJson}
use ghostcacher.Hasher.{hash_prompt_blocks}
use ghostcacher.Hasher.Reference.{cacheable}
use ghostcacher.Hasher.Volatile.{hash_prompt_blocks_volatile}
use ghostcacher.Interceptor.Extract.{
  block, prior, last, push, push_prior, push_last, push_messages, system_blocks, push_tools,
  push_turns, extract_anthropic_blocks, role_of, sort_message, sort_messages, extract_openai_blocks,
}

prior-append {ℓ} : {A : Type ℓ} (ms : List A) (a : A) → prior (ms ++ (a ∷ [])) ≡ ms
prior-append [] a = refl
prior-append (m ∷ []) a = refl
prior-append (m ∷ n ∷ ms) a = ap (λ l. m ∷ l) (prior-append (n ∷ ms) a)

last-append {ℓ} : {A : Type ℓ} (ms : List A) (a : A) → last (ms ++ (a ∷ [])) ≡ some a
last-append [] a = refl
last-append (m ∷ []) a = refl
last-append (m ∷ n ∷ ms) a = last-append (n ∷ ms) a

cacheable-push_user :
    (p : List PromptBlock) (c : Text) → cacheable (p ++ (block user c ∷ [])) ≡ cacheable p
unfolding is_cacheable filter
cacheable-push_user p c =
    filter-append (λ (b : PromptBlock). is_cacheable b.kind) p (block user c ∷ [])
    ∙ append-nil (cacheable p)

-- What is pushed last is a user block.
pushed-cacheable :
    (p : List PromptBlock) (c d : Option Text) {xs ys : List PromptBlock}
    → push user c p ≡ some xs
    → push user d p ≡ some ys
    → cacheable xs ≡ cacheable ys
pushed-cacheable p none d e f = cc
pushed-cacheable p (some c) none e f = cc
pushed-cacheable p (some c) (some d) {xs} {ys} e f =
    let ex : p ++ (block user c ∷ []) ≡ xs = ground (arith, e) in
    let ey : p ++ (block user d ∷ []) ≡ ys = ground (arith, f) in
    sym (ap cacheable ex)
    ∙ cacheable-push_user p c
    ∙ sym (cacheable-push_user p d)
    ∙ ap cacheable ey

module _ (sj : SerdeJson) where
  bind-cacheable :
      (base : Option (List PromptBlock)) (a b : Value) {xs ys : List PromptBlock}
      → Option.bind base (push_last sj (some a)) ≡ some xs
      → Option.bind base (push_last sj (some b)) ≡ some ys
      → cacheable xs ≡ cacheable ys
  unfolding push_last Option.bind
  bind-cacheable none a b e f = cc
  bind-cacheable (some p) a b e f = pushed-cacheable p (sj.to_string a) (sj.to_string b) e f

  push_messages-append :
      (ms : List Value) (a : Value) (blocks : List PromptBlock)
      → push_messages sj (ms ++ (a ∷ [])) blocks
        ≡ Option.bind (push_prior sj ms blocks) (push_last sj (some a))
  unfolding push_messages
  push_messages-append ms a blocks =
      ap₂ (λ earlier latest. Option.bind (push_prior sj earlier blocks) (push_last sj latest))
        (prior-append ms a) (last-append ms a)

  -- The blocks of two conversations that differ in their last message.
  push_messages-cacheable :
      (ms : List Value) (a b : Value) (base : Option (List PromptBlock)) {xs ys : List PromptBlock}
      → Option.bind base (push_messages sj (ms ++ (a ∷ []))) ≡ some xs
      → Option.bind base (push_messages sj (ms ++ (b ∷ []))) ≡ some ys
      → cacheable xs ≡ cacheable ys
  unfolding Option.bind
  push_messages-cacheable ms a b none e f = cc
  push_messages-cacheable ms a b (some p) e f =
      bind-cacheable (push_prior sj ms p) a b (sym (push_messages-append ms a p) ∙ e)
        (sym (push_messages-append ms b p) ∙ f)

  -- Two requests to Anthropic with the same `system`, the same `tools` and the same messages but
  -- for the last one, whose blocks can both be extracted, have the same hashes, the prefix hash
  -- included: the next turn's question does not move the key of the cache.
  pub extract_anthropic_blocks_turn :
      (sha : Sha256) (fl : Float) (j k : Value) (ms : List Value) (a b : Value)
      {xs ys : List PromptBlock}
      → get (lit "system") j ≡ get (lit "system") k
      → get (lit "tools") j ≡ get (lit "tools") k
      → Option.bind (get (lit "messages") j) as_array ≡ some (ms ++ (a ∷ []))
      → Option.bind (get (lit "messages") k) as_array ≡ some (ms ++ (b ∷ []))
      → extract_anthropic_blocks sj j ≡ some xs
      → extract_anthropic_blocks sj k ≡ some ys
      → hash_prompt_blocks sha fl xs ≡ hash_prompt_blocks sha fl ys
  unfolding extract_anthropic_blocks push_turns
  extract_anthropic_blocks_turn sha fl j k ms a b {xs} {ys} es et ej ek hx hy =
      let pushed = λ (v : Value).
        push_tools sj (get (lit "tools") v) (system_blocks sj (get (lit "system") v)) in
      hash_prompt_blocks_volatile sha fl xs ys (
        push_messages-cacheable ms a b (pushed j)
          (ap (λ o. Option.bind (pushed j) (push_turns sj o)) (sym ej) ∙ hx)
          (ap₂ (λ base o. Option.bind base (push_turns sj o))
              (ap₂ (λ tl sys. push_tools sj tl (system_blocks sj sys)) et es) (sym ek)
            ∙ hy))

  sorted_nothing :
      (o : Option (List PromptBlock × List Value))
      → Option.bind o (λ r. sort_messages sj [] r.0 r.1) ≡ o
  unfolding sort_messages Option.bind
  sorted_nothing none = refl
  sorted_nothing (some r) = refl

  bind-sorted :
      (o : Option (List PromptBlock × List Value)) (ms ns : List Value) (a : Value)
      → ((bs : List PromptBlock) (history : List Value)
          → sort_messages sj ns bs history
            ≡ Option.bind (sort_messages sj ms bs history) (λ r. sort_message sj a r.0 r.1))
      → Option.bind o (λ r. sort_messages sj ns r.0 r.1)
        ≡ Option.bind
            (Option.bind o (λ r. sort_messages sj ms r.0 r.1))
            (λ r. sort_message sj a r.0 r.1)
  unfolding Option.bind
  bind-sorted none ms ns a ih = refl
  bind-sorted (some r) ms ns a ih = ih r.0 r.1

  sort_messages-append :
      (ms : List Value) (a : Value) (bs : List PromptBlock) (history : List Value)
      → sort_messages sj (ms ++ (a ∷ [])) bs history
        ≡ Option.bind (sort_messages sj ms bs history) (λ r. sort_message sj a r.0 r.1)
  unfolding sort_messages Option.bind
  sort_messages-append [] a bs history = sorted_nothing (sort_message sj a bs history)
  sort_messages-append (m ∷ ms) a bs history =
      bind-sorted (sort_message sj m bs history) ms (ms ++ (a ∷ [])) a
        (λ b h. sort_messages-append ms a b h)

  sort_message-user :
      (a : Value) (bs : List PromptBlock) (history : List Value)
      → role_of a ≡ lit "user"
      → sort_message sj a bs history ≡ some (bs, history ++ (a ∷ []))
  unfolding sort_message text_eq
  sort_message-user a bs history e = rw (e, sort_message) refl

  sorted-cacheable :
      (a b : Value) (base : Option (List PromptBlock × List Value)) {xs ys : List PromptBlock}
      → role_of a ≡ lit "user"
      → role_of b ≡ lit "user"
      → Option.bind
          (Option.bind base (λ r. sort_message sj a r.0 r.1))
          (λ r. push_messages sj r.1 r.0)
        ≡ some xs
      → Option.bind
          (Option.bind base (λ r. sort_message sj b r.0 r.1))
          (λ r. push_messages sj r.1 r.0)
        ≡ some ys
      → cacheable xs ≡ cacheable ys
  unfolding Option.bind
  sorted-cacheable a b none ra rb e f = cc
  sorted-cacheable a b (some (bs, history)) ra rb e f =
      push_messages-cacheable history a b (some bs)
        (ap (λ o. Option.bind o (λ r. push_messages sj r.1 r.0))
            (sym (sort_message-user a bs history ra))
          ∙ e)
        (ap (λ o. Option.bind o (λ r. push_messages sj r.1 r.0))
            (sym (sort_message-user b bs history rb))
          ∙ f)

  -- Two requests in the format of OpenAI with the same messages but for the last one, which is the
  -- user's in both, and whose blocks can both be extracted, have the same hashes, the prefix hash
  -- included.
  pub extract_openai_blocks_turn :
      (sha : Sha256) (fl : Float) (j k : Value) (ms : List Value) (a b : Value)
      {xs ys : List PromptBlock}
      → role_of a ≡ lit "user"
      → role_of b ≡ lit "user"
      → Option.bind (get (lit "messages") j) as_array ≡ some (ms ++ (a ∷ []))
      → Option.bind (get (lit "messages") k) as_array ≡ some (ms ++ (b ∷ []))
      → extract_openai_blocks sj j ≡ some xs
      → extract_openai_blocks sj k ≡ some ys
      → hash_prompt_blocks sha fl xs ≡ hash_prompt_blocks sha fl ys
  unfolding extract_openai_blocks
  extract_openai_blocks_turn sha fl j k ms a b {xs} {ys} ra rb ej ek hx hy =
      let pushed = λ (o : Option (List Value)).
        Option.bind (sort_messages sj (get_or o []) [] []) (λ r. push_messages sj r.1 r.0) in
      let all = λ (o : Option (List PromptBlock × List Value)).
        Option.bind o (λ r. push_messages sj r.1 r.0) in
      hash_prompt_blocks_volatile sha fl xs ys (
        sorted-cacheable a b (sort_messages sj ms [] []) ra rb
          (sym (ap pushed ej ∙ ap all (sort_messages-append ms a [] [])) ∙ hx)
          (sym (ap pushed ek ∙ ap all (sort_messages-append ms b [] [])) ∙ hy))

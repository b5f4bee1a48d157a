-- ===== src/Hasher.antt =====
-- sidecar/src/hasher.rs: canonical forms of prompt blocks, and the hash of the cacheable prefix.
-- SHA-256 and the hexadecimal digits come by the interface of `Crypto`, the floating-point
-- estimate by that of `Float`. `none` stands for a panic.
pub mod Tests
pub mod Canonical
pub mod Reference
pub mod Order
pub mod Volatile
mod Characters
pub mod Collisions
pub mod Tokens
mod Asserts
use mathlib.Core.Option
use ghostcacher.Prelude.{
  ℕ, ◌+◌, ◌%◌, ◌^◌, Bool, true, false, not, Option, none, some, List, [], ◌∷◌, ◌++◌, map, length,
  if◌then◌else◌,
}
use ghostcacher.Prelude.Sort.{sort}
use ghostcacher.Text.{Text, Bytes, lit, trim, split_whitespace, join, split, text_le, as_bytes}
use ghostcacher.Crypto.{Sha256}
use ghostcacher.Float.{Float}
use ghostcacher.Types.{BlockKind, system, tools, document, user, is_cacheable, PromptBlock}

-- `b"\x00GC\x00"`, as bytes and, by `from_utf8`, as a text.
abbrev pub block_sep : Text
block_sep = 0 ∷ 71 ∷ 67 ∷ 0 ∷ []

abbrev pub source_tag : Text
source_tag = lit "[SOURCE:"

pub record HashResult : Type 0 where
  pub h_sys : Option Text
  pub h_tools : Option Text
  pub h_doc : Option Text
  pub prefix : Text
  pub prefix_token_estimate : ℕ

-- `s.split_whitespace().collect::<Vec<_>>().join(" ")`.
unfoldable pub collapse : Text → Text
collapse s = join (lit " ") (split_whitespace s)

-- The document arm of `canonicalize` on the pieces of its text; `split` gives one piece at least.
unfoldable pub canonicalize_sections : List Text → Text
canonicalize_sections [] = []
canonicalize_sections (preamble ∷ sections) =
    let tagged = sort text_le (map (λ s. source_tag ++ s) sections) in
    let joined = join (lit "\n") tagged in
    collapse (elim preamble [ [] ↦ joined | c ∷ r ↦ trim (c ∷ r) ++ (lit "\n" ++ joined) ])

unfoldable pub canonicalize : BlockKind → Text → Text
canonicalize document content = canonicalize_sections (split source_tag (trim content))
canonicalize _ content = collapse (trim content)

unfoldable pub kind_tag : BlockKind → Text
kind_tag system = lit "SYS"
kind_tag tools = lit "TOOLS"
kind_tag document = lit "DOC"
kind_tag user = lit "USER"

-- What `hash_block` feeds to the hash.
unfoldable pub tagged_block : BlockKind → Text → Text
unfolding kind_tag
tagged_block kind content = kind_tag kind ++ (lit ":" ++ canonicalize kind content)

module _ (sha : Sha256) where
  unfoldable pub sha256_hex : Bytes → Text
  sha256_hex data_bytes = sha.hex_encode (sha.finalize (sha.update sha.init data_bytes))

  unfoldable pub hash_block : BlockKind → Text → Text
  hash_block kind content = sha256_hex (as_bytes (tagged_block kind content))

unfoldable pub estimate_tokens : Float → Text → ℕ
estimate_tokens fl content =
    fl.as_u32 (fl.ceil (fl.div (fl.of_u64 (length (as_bytes content))) (fl.literal 38 1)))

module _ (sha : Sha256) (fl : Float) where
  -- The local variables of the loop.
  pub record Progress : Type 0 where
    pub h_sys : Option Text
    pub h_tools : Option Text
    pub h_doc : Option Text
    pub prefix_token_estimate : ℕ
    pub prefix_hasher : sha.State
    pub first_block : Bool

  abbrev pub start : Progress
  start = record {
    h_sys = none;
    h_tools = none;
    h_doc = none;
    prefix_token_estimate = 0;
    prefix_hasher = sha.init;
    first_block = true;
  }

  unfoldable pub compose_doc : Option Text → Text → Text
  compose_doc none block_hash = block_hash
  compose_doc (some prev) block_hash = sha256_hex sha (as_bytes (prev ++ (block_sep ++ block_hash)))

  -- The match at the end of the loop's body.
  unfoldable pub place : BlockKind → Text → Progress → Option Progress
  unfolding compose_doc
  place system block_hash p = some (record p { h_sys = some block_hash })
  place tools block_hash p = some (record p { h_tools = some block_hash })
  place document block_hash p = some (record p { h_doc = some (compose_doc p.h_doc block_hash) })
  place user block_hash p = none

  -- Token sums are `u32`.
  unfoldable pub feed : PromptBlock → Text → Progress → Progress
  feed block block_hash p = record p {
    prefix_token_estimate = (p.prefix_token_estimate + estimate_tokens fl block.content) % 2 ^ 32;
    prefix_hasher =
        sha.update
          (if not p.first_block then sha.update p.prefix_hasher block_sep else p.prefix_hasher)
          (as_bytes block_hash);
    first_block = false;
  }

  unfoldable pub hash_step : PromptBlock → Progress → Option Progress
  unfolding place feed
  hash_step block p =
      if not (is_cacheable block.kind)
      then some p
      else let block_hash = hash_block sha block.kind block.content in
        place block.kind block_hash (feed block block_hash p)

  unfoldable pub hash_loop : List PromptBlock → Progress → Option Progress
  hash_loop [] p = some p
  hash_loop (block ∷ blocks) p = Option.bind (hash_step block p) (λ q. hash_loop blocks q)

  unfoldable pub hash_prompt_blocks : List PromptBlock → Option HashResult
  unfolding hash_loop
  hash_prompt_blocks blocks =
      Option.map
        (λ (p : Progress). record {
          h_sys = p.h_sys;
          h_tools = p.h_tools;
          h_doc = p.h_doc;
          prefix = sha.hex_encode (sha.finalize p.prefix_hasher);
          prefix_token_estimate = p.prefix_token_estimate;
        })
        (hash_loop blocks start)

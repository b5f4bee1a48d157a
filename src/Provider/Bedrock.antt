-- ===== src/Provider/Bedrock.antt =====
-- sidecar/src/provider.rs: what the adapter changes in a body for Bedrock.
use mathlib.Core.Option
use ghostcacher.Prelude.{
  ℕ, zero, suc, ◌≡◌, refl, ◌∙◌, Bool, true, false, ◌&&◌, Option, none, some, List, ◌==◌,
  if◌then◌else◌, arith,
}
use ghostcacher.Text.{Text, lit, text_eq}
use ghostcacher.Types.{PromptBlock}
use ghostcacher.Json.{
  Value, Items, Fields, null, bool, num, arr, nil, cons, end, field, obj, str, lookup, insert,
  adjust, get, get_mut, index_set,
}
use ghostcacher.Text.Laws.{text_eq_iff}
use ghostcacher.Json.Laws.{lookup-insert, lookup-adjust}
use ghostcacher.Provider.{last_cacheable_idx, try_adjust_item, try_adjust_array, mark_bedrock}

abbrev pub item_at : ℕ → Items → Option Value
item_at i nil = none
item_at zero (cons v vs) = some v
item_at (suc i) (cons v vs) = item_at i vs

abbrev pub is_object : Value → Bool
is_object (obj fs) = true
is_object _ = false

abbrev pub all_objects : Items → Bool
all_objects nil = true
all_objects (cons v vs) = is_object v && all_objects vs

abbrev pub cache_point : Value
cache_point = obj (field (lit "type") (str (lit "default")) end)

abbrev pub optimized : Value
optimized = obj (field (lit "latency") (str (lit "optimized")) end)

abbrev pub with_cache_point : Value → Value
with_cache_point (obj fs) = obj (insert (lit "cachePoint") cache_point fs)
with_cache_point v = v

-- The messages with the one at an index changed, if there is one.
abbrev pub Pointed : ℕ → Items → Items → Type 0
Pointed idx ms us =
    (i : ℕ)
    → item_at i us ≡ (if i == idx then Option.map with_cache_point (item_at i ms) else item_at i ms)

index_set-cache_point :
    (v : Value)
    → is_object v ≡ true
    → index_set (lit "cachePoint") cache_point v ≡ some (with_cache_point v)
unfolding index_set
index_set-cache_point (obj fs) e = refl
index_set-cache_point null e = cc
index_set-cache_point (bool b) e = cc
index_set-cache_point (num n) e = cc
index_set-cache_point (str t) e = cc
index_set-cache_point (arr vs) e = cc

and_parts : {a b : Bool} → (a && b) ≡ true → (a ≡ true) × (b ≡ true)
and_parts {a} {b} e = ground (arith, e)

Pointed-cons :
    (idx : ℕ) (v : Value) (vs us : Items)
    → Pointed idx vs us
    → Pointed (suc idx) (cons v vs) (cons v us)
Pointed-cons idx v vs us p zero = ground arith
Pointed-cons idx v vs us p (suc i) = p i ∙ ground arith

Pointed-head : (v : Value) (vs : Items) → Pointed zero (cons v vs) (cons (with_cache_point v) vs)
Pointed-head v vs zero = ground arith
Pointed-head v vs (suc i) = ground arith

pub try_adjust_item_ok :
    (idx : ℕ) (ms : Items)
    → all_objects ms ≡ true
    → (us : Items) × (try_adjust_item idx (index_set (lit "cachePoint") cache_point) ms ≡ some us)
      × Pointed idx ms us
unfolding try_adjust_item
try_adjust_item_ok idx nil h = (nil, refl, λ i. ground arith)
try_adjust_item_ok zero (cons v vs) h =
    let (here, rest) = and_parts {a = is_object v} h in
    (cons (with_cache_point v) vs, rw (index_set-cache_point v here) refl, Pointed-head v vs)
try_adjust_item_ok (suc idx) (cons v vs) h =
    let (here, rest) = and_parts {a = is_object v} h in
    let (us, done, pointed) = try_adjust_item_ok idx vs rest in
    (cons v us, rw done refl, Pointed-cons idx v vs us pointed)

try_adjust_array_ok :
    (k : Text) (f : Items → Option Items) (json : Value) (ms us : Items)
    → get k json ≡ some (arr ms)
    → f ms ≡ some us
    → try_adjust_array k f json ≡ some (get_mut k (λ old. arr us) json)
unfolding try_adjust_array
try_adjust_array_ok k f json ms us has done = rw (has, try_adjust_array) (rw done refl)

-- The fields of the body for Bedrock: the configuration, the messages, and the others as they were.
abbrev pub bedrock_field : Items → Fields → Text → Option Value
bedrock_field us fs k =
    if text_eq (lit "performanceConfig") k
    then some optimized
    else if text_eq (lit "messages") k
    then some (arr us)
    else get k (obj fs)

bedrock_field_ok :
    (us : Items) (fs : Fields) (ms : Items) (k : Text)
    → lookup (lit "messages") (insert (lit "performanceConfig") optimized fs) ≡ some (arr ms)
    → lookup k
        (adjust (lit "messages") (λ old. arr us) (insert (lit "performanceConfig") optimized fs))
      ≡ bedrock_field us fs k
unfolding get
bedrock_field_ok us fs ms k read = ground (
  arith,
  read,
  lookup-adjust (lit "messages") k (λ old. arr us) (insert (lit "performanceConfig") optimized fs),
  lookup-insert (lit "performanceConfig") k optimized fs,
  text_eq_iff (lit "messages") k,
  text_eq_iff (lit "performanceConfig") k,
)

-- For a body that is an object with messages that are objects the adapter does not panic. The
-- message whose place is the index of the last cacheable block, if there is such a message, gets
-- the cache point, every other one is kept; the configuration asks for the optimized latency; and
-- every other field is kept. So no message gets it if there are no more messages than that index.
pub mark_bedrock_ok :
    (blocks : List PromptBlock) (idx : ℕ) (fs : Fields) (ms : Items)
    → last_cacheable_idx blocks ≡ some idx
    → get (lit "messages") (obj fs) ≡ some (arr ms)
    → all_objects ms ≡ true
    → (out : Value) × (us : Items) × (mark_bedrock blocks (obj fs) ≡ some out)
      × ((k : Text) → get k out ≡ bedrock_field us fs k)
      × Pointed idx ms us
unfolding mark_bedrock get get_mut index_set Option.bind text_eq
mark_bedrock_ok blocks idx fs ms at has objects =
    let (us, done, pointed) = try_adjust_item_ok idx ms objects in
    let gs = insert (lit "performanceConfig") optimized fs in
    let read : lookup (lit "messages") gs ≡ some (arr ms) =
      lookup-insert (lit "performanceConfig") (lit "messages") optimized fs ∙ has in
    (
      obj (adjust (lit "messages") (λ old. arr us) gs),
      us,
      rw at (try_adjust_array_ok (lit "messages") _ (obj gs) ms us read done),
      λ k. bedrock_field_ok us fs ms k read,
      pointed,
    )

-- ===== src/Serde/Sample.antt =====
-- A format for entries that meets the interface, for instances of the theorems.
use mathlib.Core.Option
use ghostcacher.Prelude.{
  ◌%◌, ◌^◌, ℕ, zero, suc, ◌≡◌, refl, ap, Option, none, some, subst, [], ◌∷◌, ◌++◌, length, take,
  drop,
}
use ghostcacher.Prelude.Int.{ℤ, pos, negsuc}
use ghostcacher.Text.{Text}
use ghostcacher.Types.{TtlPolicy, infinite, fixed, sliding, CacheEntry}
use ghostcacher.Serde.{Serde}

abbrev pub sign : ℤ → ℕ
sign (pos n) = 0
sign (negsuc n) = 1

abbrev pub size : ℤ → ℕ
size (pos n) = n
size (negsuc n) = n

abbrev pub int_of : ℕ → ℕ → ℤ
int_of zero n = pos n
int_of (suc s) n = negsuc n

abbrev pub policy_tag : TtlPolicy → ℕ
policy_tag infinite = 0
policy_tag (fixed n) = 1
policy_tag (sliding n) = 2

abbrev pub policy_secs : TtlPolicy → ℕ
policy_secs infinite = 0
policy_secs (fixed n) = n
policy_secs (sliding n) = n

abbrev pub policy_of : ℕ → ℕ → TtlPolicy
policy_of zero n = infinite
policy_of (suc zero) n = fixed n
policy_of (suc (suc t)) n = sliding n

abbrev pub write_text : Text → Text → Text
write_text t rest = length t ∷ (t ++ rest)

abbrev pub read_text {ℓ} : {A : Type ℓ} → Text → (Text → Text → Option A) → Option A
read_text [] k = none
read_text (n ∷ s) k = k (take n s) (drop n s)

abbrev pub write_entry : CacheEntry → Text
write_entry e = write_text e.prefix_hash (
    write_text e.pod_ip (
      write_text e.pod_id (
        e.block_count
        ∷ e.token_count
        ∷ e.hit_count
        ∷ sign e.created_at
        ∷ size e.created_at
        ∷ sign e.last_hit_at
        ∷ size e.last_hit_at
        ∷ policy_tag e.ttl_policy
        ∷ policy_secs e.ttl_policy
        ∷ [])))

abbrev pub read_numbers : Text → Text → Text → Text → Option CacheEntry
read_numbers h ip id (b ∷ t ∷ n ∷ cs ∷ c ∷ ls ∷ l ∷ pt ∷ p ∷ []) = some (record {
  prefix_hash = h;
  pod_ip = ip;
  pod_id = id;
  block_count = b;
  token_count = t;
  hit_count = n;
  created_at = int_of cs c;
  last_hit_at = int_of ls l;
  ttl_policy = policy_of pt p;
})
read_numbers h ip id _ = none

abbrev pub read_entry : Text → Option CacheEntry
read_entry s =
    read_text s (λ h s1. read_text s1 (λ ip s2. read_text s2 (λ id s3. read_numbers h ip id s3)))

take-append : (t r : Text) → take (length t) (t ++ r) ≡ t
take-append [] r = refl
take-append (c ∷ t) r = ap (λ (u : Text). c ∷ u) (take-append t r)

drop-append : (t r : Text) → drop (length t) (t ++ r) ≡ r
drop-append [] r = refl
drop-append (c ∷ t) r = drop-append t r

int_of-sign : (z : ℤ) → int_of (sign z) (size z) ≡ z
int_of-sign (pos n) = refl
int_of-sign (negsuc n) = refl

policy_of-tag : (p : TtlPolicy) → policy_of (policy_tag p) (policy_secs p) ≡ p
policy_of-tag infinite = refl
policy_of-tag (fixed n) = refl
policy_of-tag (sliding n) = refl

pub read-write_entry : (e : CacheEntry) → read_entry (write_entry e) ≡ some e
read-write_entry e = simp (take-append, drop-append, int_of-sign, policy_of-tag)

pub from_str-to_string :
    {e : CacheEntry} {t : Text}
    → ◌≡◌ {A = Option Text} (some (write_entry e)) (some t)
    → read_entry t ≡ some e
unfolding Option.bind
from_str-to_string {e} h =
    subst (λ (s : Option Text). Option.bind s read_entry ≡ some e) h (read-write_entry e)

abbrev pub plain : Serde
plain = record {
  to_string = λ e. some (write_entry e);
  from_str = read_entry;
  from_str-to_string = from_str-to_string;
  parse_f32 = λ t. elim t [ [] ↦ none | n ∷ r ↦ some (n % 2 ^ 30) ];
}

-- A reader of loads that can give any bit pattern, those of NaN among them.
abbrev pub with_nan : Serde
with_nan = record plain { parse_f32 = λ t. elim t [ [] ↦ none | n ∷ r ↦ some (n % 2 ^ 32) ] }

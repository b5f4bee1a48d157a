-- ===== src/PodRegistry/Sample.antt =====
-- Hashes beside the server in memory, and a format for pods, for instances of the theorems.
pub mod Fields
use ghostcacher.Prelude.{
  ℕ, refl, sym, subst, List, ◌≡◌, ap, ◌∙◌, Option, none, some, [], ◌∷◌, arith, false, ◌&&◌,
  if◌then◌else◌,
}
use ghostcacher.Prelude.Int.{pos, pos_part}
use ghostcacher.PodRegistry.Sample.Fields.{
  value_in, drop, listing, value_in-drop, value_in_same, value_in_other, Within, listing-Sound,
  listing-Within,
}
use ghostcacher.Text.{Text, lit, text_eq}
use ghostcacher.Text.Laws.{text_eq_refl}
use ghostcacher.Exec.{ok, Result}
use ghostcacher.World.Memory.{Memory, memory, after_ok, fields_ok}
use ghostcacher.World.Confined.{HashesConfined}
use ghostcacher.Hashes.{Hashes, Sound}
use ghostcacher.PodRegistry.{PodInfo, PodSerde, idle}

-- A function changed at one hash.
abbrev pub change_at : {A : Type 0} → Text → A → (Text → A) → Text → A
change_at h a old j = if text_eq h j then a else old j

change_at_same : {A : Type 0} (h : Text) (a : A) (old : Text → A) → change_at h a old h ≡ a
change_at_same h a old = rw (text_eq_refl h) refl

-- The fields of one hash, changed.
pub at :
    {A : Type 0} {x a : A} {n : Memory} (m : Memory) (h : Text) (l : List (Text × Text))
    → ◌≡◌ {A = Result A × Memory} (ok x, record m { fields = change_at h l m.fields }) (ok a, n)
    → n.fields h ≡ l
at m h l e = ap (λ g. g h) (fields_ok e) ∙ change_at_same h l m.fields

abbrev pub values_of : (Text → List (Text × Text)) → Text → Text → Option Text
values_of fields h f = value_in f (fields h)

pub read :
    {A : Type 0} {x a : A} {m n : Memory}
    → ◌≡◌ {A = Result A × Memory} (ok x, m) (ok a, n)
    → values_of n.fields ≡ values_of m.fields
read e = ap values_of (fields_ok e)

abbrev pub stored : Hashes memory
stored = record {
  field = λ m. values_of m.fields;
  hset = λ h f v m. (ok tt, record m { fields = change_at h ((f, v) ∷ m.fields h) m.fields });
  hdel = λ h f m. (ok tt, record m { fields = change_at h (drop f (m.fields h)) m.fields });
  hgetall = λ h m. (ok (listing (m.fields h)), m);
  hgetall_ok = λ h {s} e. (
    subst (Sound (λ f. value_in f (s.fields h))) (sym (after_ok e).0) (listing-Sound (s.fields h)),
    read e,
  );
  hgetall_complete = λ h f v {s} e has.
      subst (Within f v) (sym (after_ok e).0) (listing-Within f v (s.fields h) has);
  hset_ok = λ h f v {s} e. (
    ap (value_in f) (at s h ((f, v) ∷ s.fields h) e) ∙ value_in_same f v (s.fields h),
    (after_ok e).1,
  );
  hset_other = λ h f v g {s} e ne.
      ap (value_in g) (at s h ((f, v) ∷ s.fields h) e) ∙ value_in_other f g v (s.fields h) ne;
  hdel_ok = λ h f {s} e. (
    ap (value_in f) (at s h (drop f (s.fields h)) e)
        ∙ value_in-drop f f (s.fields h)
        ∙ rw (text_eq_refl f) refl,
    (after_ok e).1,
  );
  hdel_other = λ h f g {s} e ne.
      ap (value_in g) (at s h (drop f (s.fields h)) e)
      ∙ value_in-drop f g (s.fields h)
      ∙ rw ne refl;
  conn_keeps = λ e. read e;
  set_ex_keeps = λ k v n e. read e;
  del_keeps = λ k e. read e;
}

-- The pod with an id, a load and the second of its last heartbeat.
abbrev pub pod : Text → ℕ → ℕ → PodInfo
pod pod_id load at = record {
  pod_id = pod_id;
  pod_ip = lit "10.0.0.7";
  node_name = lit "node";
  hbm_util = load;
  dram_util = 0;
  kv_block_count = 4;
  inference_engine = lit "vllm";
  last_heartbeat = pos at;
  status = idle;
}

-- A pod is written as its load, the second of its heartbeat and its id.
abbrev pub terse : PodSerde
terse = record {
  to_string = λ p. some (p.hbm_util ∷ pos_part p.last_heartbeat ∷ p.pod_id);
  from_str = λ t. elim t [
    | [] ↦ none
    | load ∷ r ↦ elim r [ [] ↦ none | at ∷ pod_id ↦ some (pod pod_id load at) ]
  ];
  write_f32 = λ x. x ∷ [];
  write_i64 = λ z. [];
}

pub stored_confined : HashesConfined memory stored
stored_confined = record {
  hset_confined = λ h f v j s. (refl, refl);
  hgetall_confined = λ h j s. (refl, refl);
  hdel_confined = λ h f j s. (refl, refl);
}

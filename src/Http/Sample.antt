-- ===== src/Http/Sample.antt =====
-- Headers as a list of pairs, and a server that answers every request alike, for instances of the
-- theorems.
use ghostcacher.Prelude.{
  ◌≡◌, refl, true, false, Option, some, inr, List, [], ◌∷◌, if◌then◌else◌, arith,
}
use ghostcacher.Text.{Text, Bytes, lit, text_eq}
use ghostcacher.Text.Laws.{text_eq_iff, text_eq_refl}
use ghostcacher.Http.{Http, values}

abbrev pub without : Text → List (Text × Bytes) → List (Text × Bytes)
without k [] = []
without k ((j, v) ∷ hs) = let rest = without k hs in if text_eq j k then rest else (j, v) ∷ rest

abbrev pub insert_header : Text → Bytes → List (Text × Bytes) → List (Text × Bytes)
insert_header k v hs = (k, v) ∷ without k hs

values-without_same : (k : Text) (hs : List (Text × Bytes)) → values k (without k hs) ≡ []
values-without_same k [] = refl
values-without_same k ((j, v) ∷ hs) = ground (arith, values-without_same k hs)

values-without_other :
    (k j : Text) (hs : List (Text × Bytes))
    → text_eq k j ≡ false
    → values j (without k hs) ≡ values j hs
values-without_other k j [] e = refl
values-without_other k j ((i, v) ∷ hs) e =
    ground (arith, text_eq_iff i k, text_eq_iff i j, e, values-without_other k j hs e)

pub values-insert_same :
    (k : Text) (v : Bytes) (hs : List (Text × Bytes)) → values k (insert_header k v hs) ≡ v ∷ []
values-insert_same k v hs = ground (arith, text_eq_refl k, values-without_same k hs)

pub values-insert_other :
    (k j : Text) (v : Bytes) (hs : List (Text × Bytes))
    → text_eq k j ≡ false
    → values j (insert_header k v hs) ≡ values j hs
values-insert_other k j v hs e = ground (arith, e, values-without_other k j hs e)

abbrev pub echo : Http
echo = record {
  HeaderMap = List (Text × Bytes);
  iter = λ hs. hs;
  no_headers = [];
  insert = insert_header;
  iter-no_headers = refl;
  insert_same = values-insert_same;
  insert_other = values-insert_other;
  Body = Option Bytes;
  to_bytes = λ body limit. body;
  builds = λ secs. true;
  Failure = Unit {0};
  display = λ e. lit "refused";
  send = λ request.
      inr (200, (lit "set-cookie", lit "a") ∷ (lit "set-cookie", lit "b") ∷ [], some (lit "Hello"));
  text_headers = [];
}

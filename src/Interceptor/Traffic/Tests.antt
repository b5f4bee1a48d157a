-- ===== src/Interceptor/Traffic/Tests.antt =====
-- An instance of the theorem on the requests of a sidecar: two requests with the same body, between
-- which the task of another prefix runs and a minute passes.
use ghostcacher.Prelude.{◌≡◌, refl, some, List, [], ◌∷◌, length, arith}
use mathlib.Core.Option
use ghostcacher.Text.{text_eq}
use ghostcacher.Json.{get, as_array}
use ghostcacher.Http.Sample.{echo}
use ghostcacher.World.Memory.{alone}
use ghostcacher.Exec.{ok}
use ghostcacher.Interceptor.Extract.{extract_prompt_blocks}
use ghostcacher.Interceptor.Forward.{Response}
use ghostcacher.Interceptor.Handler.{Sidecar}
use ghostcacher.Interceptor.Tests.{
  deps_alone, sidecar_alone, headers, managed, task, alone-Calm, alone-Peaceful, stocked-Numeric,
  first_turn-IsAdaptable,
}
use ghostcacher.Interceptor.Traffic.{
  Event, asked, ran, elsewhere, serve_all, lookup_count, Accounted,
}
use ghostcacher.Interceptor.Traffic.Counted.{serve_all_ok}

abbrev day : List (Event deps_alone)
day =
    asked headers (some (0 ∷ []))
    ∷ ran task
    ∷ elsewhere (alone.sleep 60000)
    ∷ asked headers (some (0 ∷ []))
    ∷ []

two_lookups : lookup_count deps_alone managed day ≡ 2
unfolding extract_prompt_blocks Option.bind get ghostcacher.Json.lookup text_eq as_array
    ghostcacher.Json.as_str
two_lookups = refl

serve_all_ok_example :
    (rs : List (Response echo)) × (sd : Sidecar deps_alone) × (serve_all deps_alone managed day
        sidecar_alone
      ≡ (ok rs, sd))
    × (length rs ≡ 2)
    × Accounted deps_alone (lookup_count deps_alone managed day) sidecar_alone sd
serve_all_ok_example =
    serve_all_ok deps_alone alone-Calm alone-Peaceful managed day sidecar_alone refl
      (first_turn-IsAdaptable, (tt, ((λ s n. n), (first_turn-IsAdaptable, tt)))) stocked-Numeric
      (omega (arith, two_lookups))

-- ===== src/RedisClient/Lookup.antt =====
-- `lookup` and `write` on the affinity map.
use mathlib.Core.Option.{some-injective}
use ghostcacher.Prelude.{ℕ, ◌≡◌, refl, sym, ap, ◌∙◌, Option, none, some}
use ghostcacher.Prelude.Int.{as_i64}
use ghostcacher.Text.{Text}
use ghostcacher.Types.{TtlPolicy, infinite, fixed, sliding, CacheEntry, redis_ttl_secs}
use ghostcacher.Exec.{ok, bind-cases, lift-cases, pure-cases}
use ghostcacher.Serde.{Serde}
use ghostcacher.World.{World, Db, put, expire_in}
use ghostcacher.RedisClient.{
  cache_key, touch, refresh, lookup_found, lookup_raw, lookup, write_json, write,
}
use ghostcacher.RedisClient.Inversion.{value-put, ttl-put}

-- The database when the time to live has been set anew.
abbrev pub refreshed : Text → TtlPolicy → Db → Db
refreshed key (sliding n) db = expire_in key (as_i64 n) db
refreshed key infinite db = db
refreshed key (fixed n) db = db

module _ (w : World) (serde : Serde) where
  open w use {Store, view, unix_now}

  refresh_ok :
      (key : Text) (policy : TtlPolicy) (s : Store) {t : Store}
      → refresh w serde key policy s ≡ (ok tt, t)
      → view t ≡ refreshed key policy (view s)
  unfolding refresh
  refresh_ok key infinite s h = pure-cases h (λ a e. ap view e)
  refresh_ok key (fixed n) s h = pure-cases h (λ a e. ap view e)
  refresh_ok key (sliding n) s h = w.expire_ok key (as_i64 n) h

  -- What a hit did: the entry that was read, and the one that was stored in its place.
  pub record Hit (key json : Text) (s : Store) (r : Option CacheEntry) (t : Store) : Type 0 where
    pub old : CacheEntry
    pub now : ℕ
    pub stored : Text
    pub during : Store
    pub clock : now ≡ unix_now during
    pub aged : refresh w serde key old.ttl_policy s ≡ (ok tt, during)
    pub read : serde.from_str json ≡ some old
    pub returned : r ≡ some (touch now old)
    pub written : serde.to_string (touch now old) ≡ some stored
    pub after : view t ≡ put key stored none (refreshed key old.ttl_policy (view s))

  lookup_found-Hit :
      (key json : Text) {r : Option CacheEntry} {s t : Store}
      → lookup_found w serde key json s ≡ (ok r, t)
      → Hit key json s r t
  unfolding lookup_found
  lookup_found-Hit key json h = bind-cases _ _ _ h λ old s1 e1 h1. bind-cases _ _ _ h1 λ u s2 e2 h2.
      bind-cases _ _ _ h2 λ now s3 e3 h3. bind-cases _ _ _ h3 λ stored s4 e4 h4.
        bind-cases _ _ _ h4 λ v s5 e5 h5. lift-cases _ _ _ e1 λ read at1.
          lift-cases _ _ _ e4 λ written at4. pure-cases e3 λ at_now at3.
            pure-cases h5 λ returned at5. record {
              old = old;
              now = now;
              stored = stored;
              during = s2;
              clock = at_now;
              aged = ap (refresh w serde key old.ttl_policy) (sym at1) ∙ e2;
              read = read;
              returned = returned;
              written = written;
              after = cc (w.set_ok key stored e5, refresh_ok key old.ttl_policy s1 e2);
            }

  -- Where a lookup gets from a state with the connection and the `GET`.
  abbrev Reached : Text → Option Text → Store → Store → Type 0
  Reached key raw s u = (a : Store) × (w.conn s ≡ (ok tt, a)) × (w.get key a ≡ (ok raw, u))

  -- The time that a lookup of an entry with some policy reads: when it has connected, read the key
  -- and set the time to live anew.
  abbrev pub TouchedAt : Text → TtlPolicy → Store → ℕ → Type 0
  TouchedAt key policy s now =
      (raw : Option Text) × (u : Store) × (v : Store) × Reached key raw s u
      × (refresh w serde key policy u ≡ (ok tt, v))
      × (now ≡ unix_now v)

  -- What `lookup` did, by whether the key was there.
  pub data Looked (key : Text) (s : Store) (r : Option CacheEntry) (t : Store) : Type 0 where
    missed : (view s).value key ≡ none → r ≡ none → view t ≡ view s → Looked key s r t
    found :
        (json : Text) (u : Store)
        → (view s).value key ≡ some json
        → view u ≡ view s
        → Reached key (some json) s u
        → Hit key json u r t
        → Looked key s r t

  lookup_raw-Looked :
      (key : Text) (raw : Option Text) (s u : Store) {r : Option CacheEntry} {t : Store}
      → (view s).value key ≡ raw
      → view u ≡ view s
      → Reached key raw s u
      → lookup_raw w serde key raw u ≡ (ok r, t)
      → Looked key s r t
  unfolding lookup_raw
  lookup_raw-Looked key none s u e same way h =
      pure-cases h (λ returned at. missed e returned (ap view at ∙ same))
  lookup_raw-Looked key (some json) s u e same way h =
      found json u e same way (lookup_found-Hit key json h)

  pub lookup-Looked :
      (prefix_hash : Text) (s : Store) {r : Option CacheEntry} {t : Store}
      → lookup w serde prefix_hash s ≡ (ok r, t)
      → Looked (cache_key prefix_hash) s r t
  unfolding lookup
  lookup-Looked prefix_hash s h = bind-cases _ _ _ h λ u s1 e1 h1.
      bind-cases _ _ _ h1 λ raw s2 e2 h2.
        lookup_raw-Looked (cache_key prefix_hash) raw s s2
          (cc (w.conn_ok e1, (w.get_ok (cache_key prefix_hash) e2).0))
          ((w.get_ok (cache_key prefix_hash) e2).1 ∙ w.conn_ok e1) (s1, e1, e2) h2

  write_json_ok :
      (key json : Text) (ttl : Option ℕ) (s : Store) {t : Store}
      → write_json w serde key json ttl s ≡ (ok tt, t)
      → view t ≡ put key json ttl (view s)
  unfolding write_json
  write_json_ok key json none s h = w.set_ok key json h
  write_json_ok key json (some n) s h = w.set_ex_ok key json n h

  -- After a successful `write` the key of the entry's hash holds the JSON of the entry and expires
  -- by the entry's policy, never for an infinite one; every other key is as it was.
  pub write_ok :
      (entry : CacheEntry) (s : Store) {t : Store}
      → write w serde entry s ≡ (ok tt, t)
      → (json : Text) × (serde.to_string entry ≡ some json)
        × (view t
            ≡ put (cache_key entry.prefix_hash) json (redis_ttl_secs entry.ttl_policy) (view s))
  unfolding write
  write_ok entry s h = bind-cases _ _ _ h λ u s1 e1 h1. bind-cases _ _ _ h1 λ json s2 e2 h2.
      lift-cases _ _ _ e2 λ encoded at2. (
        json,
        encoded,
        cc (
          w.conn_ok e1,
          write_json_ok (cache_key entry.prefix_hash) json (redis_ttl_secs entry.ttl_policy) s2 h2,
        ),
      )

  Hit-ttl :
      {key json : Text} {s t : Store} {r : Option CacheEntry}
      → Hit key json s r t
      → (view t).ttl key ≡ none
  Hit-ttl {key} hit = ap (λ (db : Db). db.ttl key) hit.after ∙ ttl-put key hit.stored none _

  Looked-ttl :
      {key : Text} {s t : Store} {r : Option CacheEntry} {e : CacheEntry}
      → Looked key s r t
      → r ≡ some e
      → (view t).ttl key ≡ none
  Looked-ttl (missed v returned same) h = cc
  Looked-ttl (found json u v same way hit) h = Hit-ttl hit

  -- After a hit the entry has no time to live, whatever its policy: `SET` takes it away, also the
  -- one that the sliding policy has just set.
  pub lookup-drops-ttl :
      (prefix_hash : Text) (s : Store) {e : CacheEntry} {t : Store}
      → lookup w serde prefix_hash s ≡ (ok (some e), t)
      → (view t).ttl (cache_key prefix_hash) ≡ none
  lookup-drops-ttl prefix_hash s h = Looked-ttl (lookup-Looked prefix_hash s h) refl

  Hit-touch :
      {key json : Text} {s t : Store} {r : Option CacheEntry} {e : CacheEntry}
      → Hit key json s r t
      → serde.from_str json ≡ some e
      → (now : ℕ) × (stored : Text) × (r ≡ some (touch now e))
        × (serde.to_string (touch now e) ≡ some stored)
        × ((view t).value key ≡ some stored)
        × ((v : Store) × (refresh w serde key e.ttl_policy s ≡ (ok tt, v)) × (now ≡ unix_now v))
  Hit-touch {key} {s = s} hit e = (
    hit.now,
    hit.stored,
    cc (hit.read, hit.returned),
    cc (hit.read, hit.written),
    ap (λ (db : Db). db.value key) hit.after ∙ value-put key hit.stored none _,
    (
      hit.during,
      ap (λ (o : CacheEntry). refresh w serde key o.ttl_policy s)
            (some-injective _ _ (sym e ∙ hit.read))
          ∙ hit.aged,
      hit.clock,
    ),
  )

  pub Looked-touch :
      {key json : Text} {s t : Store} {r : Option CacheEntry} {e : CacheEntry}
      → Looked key s r t
      → (view s).value key ≡ some json
      → serde.from_str json ≡ some e
      → (now : ℕ) × (stored : Text) × (r ≡ some (touch now e))
        × (serde.to_string (touch now e) ≡ some stored)
        × ((view t).value key ≡ some stored)
        × TouchedAt key e.ttl_policy s now
  Looked-touch (missed v returned same) h e = cc
  Looked-touch (found json u v same way hit) h e =
      let (now, stored, returned, written, kept, (v, aged, clock)) = Hit-touch hit (cc) in
      (now, stored, returned, written, kept, (some json, u, v, way, aged, clock))

  -- A lookup that succeeds after a successful write returns the entry that was written, with one
  -- hit more and the time that it reads behind the `GET` and the new time to live, and stores that
  -- entry in its place.
  pub lookup-write :
      (entry : CacheEntry) (s : Store) {r : Option CacheEntry} {t u : Store}
      → write w serde entry s ≡ (ok tt, t)
      → lookup w serde entry.prefix_hash t ≡ (ok r, u)
      → (now : ℕ) × (stored : Text) × (r ≡ some (touch now entry))
        × (serde.to_string (touch now entry) ≡ some stored)
        × ((view u).value (cache_key entry.prefix_hash) ≡ some stored)
        × TouchedAt (cache_key entry.prefix_hash) entry.ttl_policy t now
  lookup-write entry s {t = t} written h =
      let (json, encoded, after) = write_ok entry s written in
      Looked-touch (lookup-Looked entry.prefix_hash t h)
        (ap (λ (db : Db). db.value (cache_key entry.prefix_hash)) after
          ∙ value-put (cache_key entry.prefix_hash) json _ _)
        (serde.from_str-to_string encoded)

-- ===== src/RedisClient/Plane/Leases.antt =====
-- The time to live of the locks: an owner that stops does not keep its lock.
use ghostcacher.Prelude.{
  ℕ, ◌≤◌, ◌≡◌, refl, sym, ap, Bool, true, false, Option, none, some, List, [], ◌∷◌, inl, inr,
  Bool-cases, arith, if◌then◌else◌, subst,
}
use ghostcacher.Text.{Text, text_eq}
use ghostcacher.Types.{CacheEntry}
use ghostcacher.Exec.{ok}
use ghostcacher.Serde.{Serde}
use ghostcacher.World.{World, is_some, elapse, ends_within}
use ghostcacher.RedisClient.{lock_key}
use ghostcacher.RedisClient.Plane.{
  Plane, Call, to_write, to_look_up, to_acquire, to_release, Reply, hit_plane, promised,
  promised_all, plane, perform_all,
}
use ghostcacher.RedisClient.Plane.Refinement.{perform_all-promised_all}

-- A lock that is held is dropped after 30 seconds at the latest.
abbrev pub IsLease : Bool → Option ℕ → Type 0
IsLease locked lease = locked ≡ true → (n : ℕ) × (lease ≡ some n) × (n ≤ 30)

abbrev pub Leased : Plane → Type 0
Leased p = (h : Text) → IsLease (p.locked h) (p.lease h)

taken-IsLease :
    (b : Bool) (locked : Bool) (lease : Option ℕ)
    → IsLease locked lease
    → IsLease (if b then true else locked) (if b then some 30 else lease)
taken-IsLease true locked lease h e = (30, refl, omega arith)
taken-IsLease false locked lease h e = h e

freed-IsLease :
    (b : Bool) (locked : Bool) (lease : Option ℕ)
    → IsLease locked lease
    → IsLease (if b then false else locked) (if b then none else lease)
freed-IsLease true locked lease h e = cc
freed-IsLease false locked lease h e = h e

hit-Leased :
    (now : ℕ) (h : Text) (p : Plane) (o : Option CacheEntry)
    → Leased p
    → Leased (hit_plane now h p o).1
hit-Leased now h p none l = l
hit-Leased now h p (some e) l = l

promised-Leased : (now : ℕ) (c : Call) (p : Plane) → Leased p → Leased (promised now c p).1
promised-Leased now (to_write e) p l = l
promised-Leased now (to_look_up h) p l = hit-Leased now h p (p.entry h) l
promised-Leased now (to_acquire h) p l = elim (Bool-cases (p.locked h)) [
  | inl held ↦ rw held l
  | inr free ↦ rw free (λ j. taken-IsLease (text_eq h j) (p.locked j) (p.lease j) (l j))
]
promised-Leased now (to_release h) p l =
    λ j. freed-IsLease (text_eq h j) (p.locked j) (p.lease j) (l j)

promised_all-Leased :
    (nows : List ℕ) (cs : List Call) (p : Plane) → Leased p → Leased (promised_all nows cs p).1
promised_all-Leased [] cs p l = l
promised_all-Leased (now ∷ nows) [] p l = l
promised_all-Leased (now ∷ nows) (c ∷ cs) p l =
    promised_all-Leased nows cs (promised now c p).1 (promised-Leased now c p l)

ends-lapsed :
    (lease : Option ℕ) (value : Option Text)
    → IsLease (is_some value) lease
    → is_some (if ends_within 30 lease then none else value) ≡ false
unfolding ends_within
ends-lapsed lease none l = ground arith
ends-lapsed lease (some v) l = let (n, e, h) = l refl in rw e (ground arith)

module _ (w : World) (serde : Serde) where
  open w use {Store, view}

  -- Where each lock that is held has at most 30 seconds to live, as where none is held, any
  -- sequence of writes, lookups, acquisitions and releases that succeeds keeps this. So when 30
  -- seconds have passed with no command, no lock is held, whoever held it and whether or not it was
  -- released.
  pub perform_all-lapses :
      (cs : List Call) (s : Store) {rs : List Reply} {t : Store}
      → Leased (plane w serde (view s))
      → perform_all w serde cs s ≡ (ok rs, t)
      → Leased (plane w serde (view t))
        × ((h : Text) → (plane w serde (elapse 30 (view t))).locked h ≡ false)
  unfolding elapse
  perform_all-lapses cs s {rs} {t} l e =
      let (nows, kept) = perform_all-promised_all w serde cs s e in
      let leased : Leased (plane w serde (view t)) =
        subst Leased (sym (ap (λ (x : List Reply × Plane). x.1) kept))
          (promised_all-Leased nows cs (plane w serde (view s)) l) in
      (
        leased,
        λ h. ends-lapsed ((view t).ttl (lock_key h)) ((view t).value (lock_key h)) (leased h),
      )

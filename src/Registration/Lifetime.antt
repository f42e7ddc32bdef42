-- ===== src/Registration/Lifetime.antt =====
-- Over the module's whole life its functions use no slab cache that is gone, and leave none behind.
use yaf.Base.{
  ℕ, ◌≡◌, ◌<◌, ◌⊎◌, ◌∙◌, ap, inl, inr, refl, true, false, Option, none, some, ◌==◌, [], ◌∷◌,
  ==-refl, Option-cases, ◌&&◌, Bool-cases,
}
use yaf.Machine.{Result, ok, err}
use yaf.Inode.{enomem}
use yaf.Registration.{
  Module, has, without, cache_exists, init_inode_cache, fini_inode_cache, yaf_init, yaf_exit,
  alloc_inode, destroy_inode, yaf_mount, yaf_kill_sb,
}

-- The module before it is loaded.
abbrev pub unloaded : Module
unloaded = record {
  yaf_inode_cachep = none;
  caches = [];
  objects = [];
  registered = false;
  mounts = 0;
}

-- One call of the module by the kernel, with the kernel's guarantees. `yaf_init` is called while the
-- type is not registered. `THIS_MODULE` as the owner of the type keeps `yaf_exit` away while there is
-- a mount or an inode; the type is then registered, so `unregister_filesystem` returns 0. A
-- mount and an inode are asked for while the type is registered, and an inode is given back
-- once.
pub data Step : Module → Module → Type 0 where
  load :
      (m : Module) (created : Option ℕ) (ret : ℕ)
      → m.registered ≡ false
      → Step m (yaf_init created ret m).1
  unload :
      (m : Module) → m.registered ≡ true → m.mounts ≡ 0 → m.objects ≡ [] → Step m (yaf_exit 0 m)
  mount : (m : Module) (r : Result ℕ) → m.registered ≡ true → Step m (yaf_mount r m).1
  kill : (m : Module) → m.registered ≡ true → 0 < m.mounts → Step m (yaf_kill_sb m)
  alloc :
      (m m' : Module) (object : Option ℕ) (r : Result ℕ)
      → m.registered ≡ true
      → alloc_inode object m ≡ some (r, m')
      → Step m m'
  destroy :
      (m m' : Module) (yii : ℕ) → m.registered ≡ true → destroy_inode yii m ≡ some m' → Step m m'

-- A state that calls lead to from the module before it is loaded.
pub data Reachable : Module → Type 0 where
  start : Reachable unloaded
  next : {m m' : Module} → Reachable m → Step m m' → Reachable m'

-- The type is not registered, and the module keeps no memory; or it is, and the pointer is to the
-- module's only cache.
abbrev pub IsSound : Module → Type 0
IsSound m =
    ((m.registered ≡ false) × (m.caches ≡ []) × (m.objects ≡ []))
    ⊎ ((m.registered ≡ true) × ((a : ℕ) × (m.yaf_inode_cachep ≡ some a) × (m.caches ≡ a ∷ [])))

fini_empty :
    (m : Module) (a : ℕ)
    → m.yaf_inode_cachep ≡ some a
    → m.caches ≡ a ∷ []
    → (fini_inode_cache m).caches ≡ []
unfolding fini_inode_cache without
fini_empty m a pointer caches = rw (pointer, caches, ==-refl a, without) refl

fini_kept :
    (m : Module)
    → ((fini_inode_cache m).registered ≡ m.registered) × ((fini_inode_cache m).objects ≡ m.objects)
unfolding fini_inode_cache
fini_kept m = (refl, refl)

abbrev with_cache : ℕ → Module → Module
with_cache a m = record m { yaf_inode_cachep = some a; caches = a ∷ m.caches }

yaf_init-failed :
    (m : Module) (a ret : ℕ)
    → (ret == 0) ≡ false
    → yaf_init (some a) ret m ≡ (ret, fini_inode_cache (with_cache a m))
unfolding yaf_init init_inode_cache
yaf_init-failed m a ret failed = rw failed refl

yaf_init-IsSound :
    (m : Module) (created : Option ℕ) (ret : ℕ)
    → m.registered ≡ false
    → IsSound m
    → IsSound (yaf_init created ret m).1
unfolding yaf_init init_inode_cache
yaf_init-IsSound m none ret off (inl (off', caches, objects)) = inl (off', caches, objects)
yaf_init-IsSound m (some a) ret off (inl (off', caches, objects)) = elim (Bool-cases (ret == 0)) [
  | inl done ↦ rw done (inr (refl, (a, refl, ap (λ x. a ∷ x) caches)))
  | inr failed ↦
      let t : Module = with_cache a m in
      rw (yaf_init-failed m a ret failed) (
        inl (
          (fini_kept t).0 ∙ off,
          fini_empty t a refl (ap (λ x. a ∷ x) caches),
          (fini_kept t).1 ∙ objects,
        ))
]
yaf_init-IsSound m created ret off (inr (on, rest)) = cc (on, off)

yaf_exit-IsSound :
    (m : Module) → m.registered ≡ true → m.objects ≡ [] → IsSound m → IsSound (yaf_exit 0 m)
unfolding yaf_exit fini_inode_cache without
yaf_exit-IsSound m on objects (inl (off, rest, objects')) = cc (on, off)
yaf_exit-IsSound m on objects (inr (on', (a, pointer, caches))) =
    rw (pointer, caches, ==-refl a) (inl (refl, refl, objects))

-- A call that leaves the registration and the cache alone.
abbrev SameCache : Module → Module → Type 0
SameCache m m' =
    (m'.registered ≡ m.registered)
    × (m'.yaf_inode_cachep ≡ m.yaf_inode_cachep)
    × (m'.caches ≡ m.caches)

SameCache-IsSound : (m m' : Module) → m.registered ≡ true → SameCache m m' → IsSound m → IsSound m'
SameCache-IsSound m m' on (same, pointer, caches) (inl (off, rest, objects)) = cc (on, off)
SameCache-IsSound m m' on (same, pointer, caches) (inr (on', (a, p, c))) =
    inr (same ∙ on, (a, pointer ∙ p, caches ∙ c))

alloc-SameCache :
    (m m' : Module) (object : Option ℕ) (r : Result ℕ)
    → alloc_inode object m ≡ some (r, m')
    → SameCache m m'
unfolding alloc_inode
alloc-SameCache m m' object r e = elim (Bool-cases (cache_exists m)) [
  | inr gone ↦ cc (rw gone at e)
  | inl there ↦ given object (rw there at e)
]
  where
    given :
        (o : Option ℕ)
        → (elim o as (λ x. Option (Result ℕ × Module)) [
          | none ↦ some (err enomem, m)
          | some yii ↦ some (ok yii, record m { objects = yii ∷ m.objects })
        ])
          ≡ some (r, m')
        → SameCache m m'
    given none h = let same : m ≡ m' = cc h in rw (← same) (refl, refl, refl)
    given (some yii) h =
        let same : record m { objects = yii ∷ m.objects } ≡ m' = cc h in
        rw (← same) (refl, refl, refl)

destroy-SameCache : (m m' : Module) (yii : ℕ) → destroy_inode yii m ≡ some m' → SameCache m m'
unfolding destroy_inode
destroy-SameCache m m' yii e = elim (Bool-cases (cache_exists m && has yii m.objects)) [
  | inr gone ↦ cc (rw gone at e)
  | inl there ↦
      let h = rw there at e in
      let same : record m { objects = without yii m.objects } ≡ m' = cc h in
      rw (← same) (refl, refl, refl)
]

mount-SameCache : (m : Module) (r : Result ℕ) → SameCache m (yaf_mount r m).1
unfolding yaf_mount
mount-SameCache m (ok root) = (refl, refl, refl)
mount-SameCache m (err e) = (refl, refl, refl)

kill-SameCache : (m : Module) → SameCache m (yaf_kill_sb m)
unfolding yaf_kill_sb
kill-SameCache m = (refl, refl, refl)

Step-IsSound : {m m' : Module} → Step m m' → IsSound m → IsSound m'
Step-IsSound (load m created ret off) = yaf_init-IsSound m created ret off
Step-IsSound (unload m on mounts objects) = yaf_exit-IsSound m on objects
Step-IsSound (mount m r on) = SameCache-IsSound m (yaf_mount r m).1 on (mount-SameCache m r)
Step-IsSound (kill m on some_mount) = SameCache-IsSound m (yaf_kill_sb m) on (kill-SameCache m)
Step-IsSound (alloc m m' object r on e) =
    SameCache-IsSound m m' on (alloc-SameCache m m' object r e)
Step-IsSound (destroy m m' yii on e) = SameCache-IsSound m m' on (destroy-SameCache m m' yii e)

pub Reachable-IsSound : {m : Module} → Reachable m → IsSound m
Reachable-IsSound start = inl (refl, refl, refl)
Reachable-IsSound (next r step) = Step-IsSound step (Reachable-IsSound r)

exists :
    (m : Module) (a : ℕ) → m.yaf_inode_cachep ≡ some a → m.caches ≡ a ∷ [] → cache_exists m ≡ true
unfolding cache_exists has
exists m a pointer caches = rw (pointer, caches, ==-refl a, cache_exists) refl

-- In a state that the kernel's calls lead to and in which the type is registered,
-- `yaf_alloc_inode` and, for an inode that was given out, `yaf_destroy_inode` find their cache.
Reachable-serves :
    (m : Module) (object : Option ℕ) (yii : ℕ)
    → Reachable m
    → m.registered ≡ true
    → has yii m.objects ≡ true
    → ((r : Result ℕ) × (m' : Module) × (alloc_inode object m ≡ some (r, m')))
      × (destroy_inode yii m ≡ some (record m { objects = without yii m.objects }))
unfolding alloc_inode destroy_inode
Reachable-serves m object yii reach on given = elim (Reachable-IsSound reach) [
  | inl (off, caches, objects) ↦ cc (on, off)
  | inr (on', (a, pointer, caches)) ↦
      let there : cache_exists m ≡ true = exists m a pointer caches in
      elim (Option-cases object) [
        | inl gone ↦ rw (there, given, gone) ((err enomem, m, refl), refl)
        | inr (o, is) ↦
            rw (there, given, is) ((ok o, record m { objects = o ∷ m.objects }, refl), refl)
      ]
]

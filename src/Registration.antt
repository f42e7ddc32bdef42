-- ===== src/Registration.antt =====
-- The module's life: driver/fs.c registers the file system with the kernel, and driver/super.c keeps
-- the slab cache from which the in-memory inodes come. What the kernel's functions return are
-- arguments: 0 or an errno, and an address or none.
pub mod Lifetime
mod Tests
use yaf.Base.{
  ℕ, zero, suc, ◌+◌, ◌-◌, Bool, true, false, Option, none, some, ◌==◌, not, ◌&&◌, ltb,
  if◌then◌else◌, List, [], ◌∷◌,
}
use yaf.Machine.{Result, ok, err}
use yaf.Inode.{enomem}

-- The static `yaf_inode_cachep`, and what the kernel keeps for the module: the addresses of its slab
-- caches, those of the objects allocated, whether the type is registered, and the mounts of it.
pub record Module : Type 0 where
  pub yaf_inode_cachep : Option ℕ
  pub caches : List ℕ
  pub objects : List ℕ
  pub registered : Bool
  pub mounts : ℕ

unfoldable pub has : ℕ → List ℕ → Bool
has a [] = false
has a (x ∷ xs) = let rest = has a xs in if x == a then true else rest

unfoldable pub without : ℕ → List ℕ → List ℕ
without a [] = []
without a (x ∷ xs) = let rest = without a xs in if x == a then rest else x ∷ rest

-- The pointer is to a cache that exists.
unfoldable pub cache_exists : Module → Bool
cache_exists m = elim m.yaf_inode_cachep [ none ↦ false | some a ↦ has a m.caches ]

-- `yaf_init_inode_cache`, for what `kmem_cache_create` returns.
unfoldable pub init_inode_cache : Option ℕ → Module → ℕ × Module
init_inode_cache none m = (enomem, record m { yaf_inode_cachep = none })
init_inode_cache (some a) m = (0, record m { yaf_inode_cachep = some a; caches = a ∷ m.caches })

-- `yaf_fini_inode_cache`: the pointer keeps its value.
unfoldable pub fini_inode_cache : Module → Module
fini_inode_cache m = record m {
  caches = elim m.yaf_inode_cachep [ none ↦ m.caches | some a ↦ without a m.caches ];
}

-- `register_filesystem` and `unregister_filesystem`, for what they return.
abbrev pub register_filesystem : ℕ → Module → Module
register_filesystem ret m = if ret == 0 then record m { registered = true } else m

abbrev pub unregister_filesystem : ℕ → Module → Module
unregister_filesystem ret m = if ret == 0 then record m { registered = false } else m

-- `yaf_init` and its result.
unfoldable pub yaf_init : Option ℕ → (registered : ℕ) → Module → ℕ × Module
yaf_init created registered m =
    let (ret, t) = init_inode_cache created m in
    if not (ret == 0)
    then (ret, t)
    else (if not (registered == 0)
        then (registered, fini_inode_cache (register_filesystem registered t))
        else (registered, register_filesystem registered t))

-- `yaf_exit`.
unfoldable pub yaf_exit : (unregistered : ℕ) → Module → Module
yaf_exit unregistered m =
    let t = unregister_filesystem unregistered m in
    if not (unregistered == 0) then t else fini_inode_cache t

-- `yaf_alloc_inode`, for what `kmem_cache_alloc` returns. None stands for the use of a cache that
-- does not exist.
unfoldable pub alloc_inode : Option ℕ → Module → Option (Result ℕ × Module)
alloc_inode object m =
    if cache_exists m
    then elim object [
      | none ↦ some (err enomem, m)
      | some yii ↦ some (ok yii, record m { objects = yii ∷ m.objects })
    ]
    else none

-- `yaf_destroy_inode`. None stands for the use of a cache that does not exist, or for an object
-- that it has not given out.
unfoldable pub destroy_inode : ℕ → Module → Option Module
destroy_inode yii m =
    if cache_exists m && has yii m.objects
    then some (record m { objects = without yii m.objects })
    else none

-- `yaf_mount` and its result, for what `mount_bdev` returns: a root dentry or an errno.
unfoldable pub yaf_mount : Result ℕ → Module → Result ℕ × Module
yaf_mount (ok root) m = (ok root, record m { mounts = m.mounts + 1 })
yaf_mount (err e) m = (err e, m)

-- `yaf_kill_sb`: `kill_block_super` takes the mount away.
unfoldable pub yaf_kill_sb : Module → Module
yaf_kill_sb m = record m { mounts = m.mounts - 1 }

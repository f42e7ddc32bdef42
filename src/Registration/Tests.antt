-- ===== src/Registration/Tests.antt =====
-- The module loaded with a cache at address 64 and one inode at address 80.
use yaf.Base.{true, some, [], ◌∷◌}
use yaf.Registration.{Module}
use yaf.Registration.Lifetime.{unloaded}

abbrev loaded : Module
loaded = record unloaded { yaf_inode_cachep = some 64; caches = 64 ∷ []; registered = true }

abbrev serving : Module
serving = record loaded { objects = 80 ∷ [] }

-- ===== src/Readdir/Names.antt =====
-- A whole iteration of driver/dir.c over a directory gives each name of its map once.
use yaf.Base.{ℕ, Bool, true, some, none, Option, if◌then◌else◌, List, [], ◌∷◌}
use yaf.Dentry.{Name, dentry_name_len, strneq}
use yaf.Readdir.{Context, Emitter}

-- An actor that keeps the inode numbers of the entries that have a name.
abbrev pub listener : (Context (List ℕ) → Bool × Context (List ℕ)) → Name → Emitter (List ℕ)
listener dots name = record {
  dir_emit_dots = dots;
  dir_emit = λ c b off len ino. (true, if strneq b off name dentry_name_len then ino ∷ c else c);
}

-- What it keeps of a directory that implements a map.
abbrev pub once : Option ℕ → List ℕ
once none = []
once (some ino) = ino ∷ []

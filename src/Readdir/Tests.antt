-- ===== src/Readdir/Tests.antt =====
-- An iteration over a directory of one entry.
use yaf.Base.{ℕ, Bool, true, [], List}
use yaf.Readdir.{Context}

-- The dots are taken.
abbrev skip_dots : Context (List ℕ) → Bool × Context (List ℕ)
skip_dots ctx = (true, record ctx { pos = 2 })

abbrev fresh : Context (List ℕ)
fresh = record { pos = 0; actor = [] }

abbrev past_dots : Context (List ℕ)
past_dots = record { pos = 2; actor = [] }

-- An actor that is asked to go on inside an entry.
abbrev stay : Context (List ℕ) → Bool × Context (List ℕ)
stay ctx = (true, record ctx { pos = 7 })

-- ===== src/Mkfs/Tool/Tests.antt =====
-- `mkfs` on a device file of 64 blocks.
use yaf.Base.{
  ℕ, ◌*◌, ◌≡◌, refl, arith, List, [], ◌∷◌, none, some, ◌==◌, if◌then◌else◌, Bool-cases, inl, inr,
}
use yaf.Layout.{bid_d_min}
use yaf.Machine.{Result, ok, err}
use yaf.Mkfs.{Disk, mkfs, superblock, superblock_info}
use yaf.Mkfs.Arguments.{Arg, Arguments, Parser, Parsed, ready, mkfs_parse_arguments}
use yaf.Mkfs.Arguments.Last.{feed, keys, mkfs_parse_arguments-last}
use yaf.Mkfs.Tool.{Process, Host, device_size, store, main}
use yaf.Mkfs.Tool.Store.{Shows}
use yaf.Mkfs.Tool.Calls.{IsHost, Untouched}
use yaf.Mkfs.Tool.Outcome.{Ends, Outcome}
use yaf.Mkfs.Tool.Main.{Works, HasSize, main-Outcome, main-mkfs, main-short}

abbrev argp_parse : Parser → List Arg → Arguments → Parsed
argp_parse parser argv a = feed parser (keys argv) a

-- `/a` and `/b`.
abbrev a_path : Arg
a_path = 47 ∷ 97 ∷ []

abbrev b_path : Arg
b_path = 47 ∷ 98 ∷ []

-- Of two devices the last is taken.
mkfs_parse_arguments-last_example :
    mkfs_parse_arguments argp_parse (a_path ∷ b_path ∷ []) ≡ ready b_path
mkfs_parse_arguments-last_example =
    mkfs_parse_arguments-last argp_parse (a_path ∷ b_path ∷ []) (λ argv a pos. refl) refl

abbrev new : Process
new = record { image = λ a. 7; pos = 0; errno = 0; calls = 0 }

abbrev old_disk : Disk
old_disk b o = 7

-- A regular file of 64 blocks; the calls are those of the argument.
abbrev host : (ℕ → ℕ → Result ℕ) → Host
host written = record {
  open_error = λ device. none;
  fstat = ok (record { st_mode = 0o100644; st_size = 262144 });
  blkgetsize64 = err 25;
  lseek_error = λ c off. none;
  written = written;
  le32toh = λ x. x;
  geteuid = 1000;
  getegid = 1000;
}

abbrev works : Host
works = host (λ c len. ok len)

host-HasSize : (written : ℕ → ℕ → Result ℕ) → HasSize (host written) a_path 262144
unfolding device_size
host-HasSize written = record {
  stat = record { st_mode = 0o100644; st_size = 262144 };
  opens = refl;
  stats = refl;
  sized = refl;
}

works-Works : Works works
works-Works = record { seeks = λ c off. refl; writes = λ c len. refl }

main-mkfs_example :
    (d' : Disk) × (mkfs old_disk 64 1000 1000 ≡ some d')
    × Ends (λ e t. (e ≡ 0) × Shows t.image d') (main works argp_parse (a_path ∷ []) new)
main-mkfs_example =
    main-mkfs argp_parse works a_path [] 262144 old_disk new (λ argv a pos. refl) works-Works
      (λ x w. refl) refl (host-HasSize (λ c len. ok len)) (omega arith) (omega arith)
      (λ b o lt. refl)

abbrev no_space : Result ℕ
no_space = err 28

-- The write of the data bitmap finds the device full.
abbrev full : ℕ → ℕ → Result ℕ
full c len = if c == 7 then no_space else ok len

full-IsHost : IsHost (host full)
full-IsHost = record {
  lseek_errno = λ c off e fails. absurd (cc fails);
  write_errno = λ c len e fails. elim (Bool-cases (c == 7)) [
    | inl here ↦
        let same : no_space ≡ err e = rw⁻¹ fails (rw here refl) in
        let code : 28 ≡ e = cc same in omega (arith, code)
    | inr there ↦ let same : full c len ≡ ok len = rw there refl in absurd (cc (same, fails))
  ];
  at_most = λ c len n all. elim (Bool-cases (c == 7)) [
    | inl here ↦ let same : no_space ≡ ok n = rw⁻¹ all (rw here refl) in absurd (cc same)
    | inr there ↦
        let same : ok len ≡ ok n = rw⁻¹ all (rw there refl) in
        let number : len ≡ n = cc same in omega arith
  ];
}

main-Outcome_example :
    (d' : Disk) × (mkfs old_disk 64 1000 1000 ≡ some d')
    × Ends
        (λ e t.
          Outcome (host full) d' e t × Untouched (bid_d_min (superblock_info 64) * 4096) new t)
        (main (host full) argp_parse (a_path ∷ []) new)
main-Outcome_example =
    main-Outcome argp_parse (host full) a_path [] 262144 old_disk new (λ argv a pos. refl)
      full-IsHost (λ x w. refl) refl (host-HasSize full) (omega arith) (omega arith)
      (λ b o lt. refl)

-- The first write stores 100 bytes.
main-short_example :
    Ends
      (λ e t. (e ≡ 0) × (t.image ≡ store (λ a. 7) 0 (superblock (superblock_info 64)) 100))
      (main (host (λ c len. ok 100)) argp_parse (a_path ∷ []) new)
main-short_example =
    main-short argp_parse (host (λ c len. ok 100)) a_path [] 262144 100 new (λ argv a pos. refl)
      refl (host-HasSize (λ c len. ok 100)) refl refl (omega arith)

-- ENOENT.

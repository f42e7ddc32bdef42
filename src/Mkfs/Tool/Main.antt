-- ===== src/Mkfs/Tool/Main.antt =====
-- `main` of tool/mkfs.c: what is on the device when it ends, whatever calls fail.
use yaf.Base.{ℕ, ◌+◌, ◌*◌, ◌/◌, ◌≤◌, ◌<◌, ◌≡◌, refl, arith, true, some, none, inl, inr, List, ◌∷◌}
use yaf.Base.Word.{IsWord}
use yaf.Layout.{bid_d_min}
use yaf.Machine.{ok}
use yaf.Mkfs.{Disk, superblock_info, superblock, mkfs}
use yaf.Mkfs.Image.{written, mkfs-written}
use yaf.Mkfs.Sizes.{superblock_info-IsLayout, superblock_info-data}
use yaf.Mkfs.Arguments.{Arg, Arguments, Parser, Parsed}
use yaf.Mkfs.Arguments.Last.{IsArgp, positional, last, mkfs_parse_arguments-last}
use yaf.Mkfs.Tool.{
  Process, Stat, Host, Finish, write_data_blocks, returns, exits, aborts, checked, write_sections,
  device_size, format, main, store, write_superblock,
}
use yaf.Mkfs.Tool.Store.{Shows}
use yaf.Mkfs.Tool.Calls.{IsHost, Failing, Untouched, write_at-short}
use yaf.Mkfs.Tool.Outcome.{Ends, Outcome, formatted, stopped, torn, IsLittle, sections-Good}

-- The size of the device is known: it can be opened, and `fstat` and the `ioctl` give a size.
pub record HasSize (h : Host) (device : Arg) (size : ℕ) : Type 0 where
  pub stat : Stat
  pub opens : h.open_error device ≡ none
  pub stats : h.fstat ≡ ok stat
  pub sized : device_size h stat ≡ ok size

format-write_sections :
    (h : Host) (device : Arg) (size : ℕ) (s : Process)
    → HasSize h device size
    → format h device s ≡ write_sections h (size / 4096) s
unfolding format
format-write_sections h device size s known =
    simp (known.opens, known.stats, known.sized, format) refl

module _ (argp_parse : Parser → List Arg → Arguments → Parsed) (argp : IsArgp argp_parse) where
  main-format :
      (h : Host) (arg : Arg) (more : List Arg) (s : Process)
      → positional (arg ∷ more) ≡ true
      → main h argp_parse (arg ∷ more) s ≡ format h (last arg more) s
  unfolding main
  main-format h arg more s pos =
      rw (mkfs_parse_arguments-last argp_parse (arg ∷ more) argp pos, main) refl

-- `mkfs`, called on a device of at least 64 blocks whose number is a 32-bit number, whatever calls of
-- `lseek` and `write` fail, on a little-endian host: it returns. Either it returns 0 and the device
-- shows the disk that `mkfs` makes of its blocks, or it returns another code and a call has failed, or
-- some write was short. In no case is a byte of the data section touched.
pub main-Outcome :
    (argp_parse : Parser → List Arg → Arguments → Parsed) (h : Host) (arg : Arg) (more : List Arg)
    (size : ℕ) (d : Disk) (s : Process)
    → IsArgp argp_parse
    → IsHost h
    → IsLittle h
    → positional (arg ∷ more) ≡ true
    → HasSize h (last arg more) size
    → 64 ≤ size / 4096
    → IsWord (size / 4096)
    → Shows s.image d
    → (d' : Disk) × (mkfs d (size / 4096) h.geteuid h.getegid ≡ some d')
      × Ends
          (λ e t.
            Outcome h d' e t × Untouched (bid_d_min (superblock_info (size / 4096)) * 4096) s t)
          (main h argp_parse (arg ∷ more) s)
unfolding write_sections write_data_blocks checked
main-Outcome argp_parse h arg more size d s argp is little pos known lo w image =
    let bnr = size / 4096 in
    let l = (superblock_info-IsLayout bnr lo w).0 in
    (
      written (superblock_info bnr) l d h.geteuid h.getegid,
      mkfs-written d bnr h.geteuid h.getegid l,
      rw
          (
            main-format argp_parse argp h arg more s pos,
            format-write_sections h (last arg more) size s known,
          )
          (sections-Good is little l d s (omega (arith, superblock_info-data bnr lo w)) image),
    )

-- No call of `lseek` fails, and every `write` writes all its bytes.
pub record Works (h : Host) : Type 0 where
  pub seeks : (c off : ℕ) → h.lseek_error c off ≡ none
  pub writes : (c len : ℕ) → h.written c len ≡ ok len

Works-IsHost : {h : Host} → Works h → IsHost h
Works-IsHost works = record {
  lseek_errno = λ c off e fails z. absurd (cc (works.seeks c off, fails));
  write_errno = λ c len e fails z. absurd (cc (works.writes c len, fails));
  at_most = λ c len n all. let same : len ≡ n = cc (works.writes c len, all) in omega arith;
}

Works-formatted :
    {h : Host} {d' : Disk} {e : ℕ} {t : Process}
    → Works h
    → Outcome h d' e t
    → (e ≡ 0) × Shows t.image d'
unfolding Failing
Works-formatted works (formatted z image) = (z, image)
Works-formatted works (stopped ne (inl (c, off, e, fails))) = absurd (cc (works.seeks c off, fails))
Works-formatted works (stopped ne (inr (c, len, e, fails))) =
    absurd (cc (works.writes c len, fails))
Works-formatted works (torn (c, len, n, part, less)) =
    let same : len ≡ n = cc (works.writes c len, part) in absurd (omega arith)

Ends-mono :
    (P Q : ℕ → Process → Type 0) (f : Finish)
    → ((e : ℕ) (t : Process) → P e t → Q e t)
    → Ends P f
    → Ends Q f
Ends-mono P Q (returns e t) imp p = imp e t p
Ends-mono P Q exits imp p = p
Ends-mono P Q aborts imp p = p

-- On a little-endian host on which all calls work, `main` implements `mkfs`: for a device of at least
-- 64 blocks, whose number is a 32-bit number, it returns 0 and leaves the bytes of the blocks that
-- `mkfs` makes.
pub main-mkfs :
    (argp_parse : Parser → List Arg → Arguments → Parsed) (h : Host) (arg : Arg) (more : List Arg)
    (size : ℕ) (d : Disk) (s : Process)
    → IsArgp argp_parse
    → Works h
    → IsLittle h
    → positional (arg ∷ more) ≡ true
    → HasSize h (last arg more) size
    → 64 ≤ size / 4096
    → IsWord (size / 4096)
    → Shows s.image d
    → (d' : Disk) × (mkfs d (size / 4096) h.geteuid h.getegid ≡ some d')
      × Ends (λ e t. (e ≡ 0) × Shows t.image d') (main h argp_parse (arg ∷ more) s)
main-mkfs argp_parse h arg more size d s argp works little pos known lo w image =
    let (d', made, ends) =
      main-Outcome argp_parse h arg more size d s argp (Works-IsHost works) little pos known lo w
        image in
    (
      d',
      made,
      Ends-mono _ _ (main h argp_parse (arg ∷ more) s) (λ e t good. Works-formatted works good.0)
          ends,
    )

-- When the superblock is written short, `main` returns the errno that was there before, 0 in a new
-- process, and the rest of the superblock and all other sections are missing.
pub main-short :
    (argp_parse : Parser → List Arg → Arguments → Parsed) (h : Host) (arg : Arg) (more : List Arg)
    (size n : ℕ) (s : Process)
    → IsArgp argp_parse
    → positional (arg ∷ more) ≡ true
    → HasSize h (last arg more) size
    → h.lseek_error s.calls 0 ≡ none
    → h.written (s.calls + 1) 4096 ≡ ok n
    → n < 4096
    → Ends
        (λ e t.
          (e ≡ s.errno)
          × (t.image ≡ store s.image 0 (superblock (superblock_info (size / 4096))) n))
        (main h argp_parse (arg ∷ more) s)
unfolding write_sections write_superblock checked
main-short argp_parse h arg more size n s argp pos known seeks part less =
    rw
      (
        main-format argp_parse argp h arg more s pos,
        format-write_sections h (last arg more) size s known,
      )
      (rw (write_at-short h 0 (superblock (superblock_info (size / 4096))) 4096 n s seeks part less)
        (refl, refl))

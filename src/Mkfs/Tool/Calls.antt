-- ===== src/Mkfs/Tool/Calls.antt =====
-- The calls of `lseek` and `write` with their error paths, tool/mkfs.c.
use yaf.Base.{
  ℕ, ◌+◌, ◌*◌, ◌≤◌, ◌<◌, ◌^◌, ◌≡◌, ◌≢◌, ◌⊎◌, ◌∙◌, refl, arith, Bool, true, false, Option, none,
  some, ◌==◌, inl, inr, ==-refl, ne→==, Bool-cases, ==→eq,
}
use yaf.Base.Word.{neg64}
use yaf.Machine.{Result, ok, err, update}
use yaf.Inode.{eio}
use yaf.Mkfs.{Disk}
use yaf.Mkfs.Tool.{Process, Host, store, lseek, write, write_at}
use yaf.Mkfs.Tool.Store.{Shows, Replaces, Shows-store, store-Outside}

-- What is documented of `lseek` and `write`: a call that fails sets errno to a positive number, and
-- `write` writes at most as many bytes as it is asked for.
pub record IsHost (h : Host) : Type 0 where
  pub lseek_errno : (c off e : ℕ) → h.lseek_error c off ≡ some e → e ≢ 0
  pub write_errno : (c len e : ℕ) → h.written c len ≡ err e → e ≢ 0
  pub at_most : (c len n : ℕ) → h.written c len ≡ ok n → n ≤ len

-- Some call fails.
unfoldable pub Failing : Host → Type 0
Failing h =
    ((c : ℕ) × (off : ℕ) × (e : ℕ) × (h.lseek_error c off ≡ some e))
    ⊎ ((c : ℕ) × (len : ℕ) × (e : ℕ) × (h.written c len ≡ err e))

-- Some `write` writes fewer bytes than it is asked for.
abbrev pub WritesShort : Host → Type 0
WritesShort h = (c : ℕ) × (len : ℕ) × (n : ℕ) × (h.written c len ≡ ok n) × (n < len)

-- How a section ends: it is written; a call has failed, and errno says why; or a write was short.
pub data Section (h : Host) (d : Disk) (r : ℕ × Process) : Type 0 where
  complete : r.0 ≡ 0 → Shows r.1.image d → Section h d r
  failed : r.0 ≢ 0 → r.1.errno ≢ 0 → Failing h → Section h d r
  short : r.0 ≢ 0 → WritesShort h → Section h d r

-- The bytes from `top` on are untouched.
abbrev pub Untouched : ℕ → Process → Process → Type 0
Untouched top s t = (a : ℕ) → top ≤ a → t.image a ≡ s.image a

Option-cases : (o : Option ℕ) → (o ≡ none) ⊎ ((e : ℕ) × (o ≡ some e))
Option-cases none = inl refl
Option-cases (some e) = inr (e, refl)

Result-cases : (r : Result ℕ) → ((n : ℕ) × (r ≡ ok n)) ⊎ ((e : ℕ) × (r ≡ err e))
Result-cases (ok n) = inl (n, refl)
Result-cases (err e) = inr (e, refl)

-- How one `lseek` ends: at the offset, with the bytes as before; or it has failed.
pub data Sought (h : Host) (off : ℕ) (s : Process) (r : Bool × Process) : Type 0 where
  sought : r.0 ≡ true → r.1.pos ≡ off → r.1.image ≡ s.image → Sought h off s r
  not_sought : r.0 ≡ false → r.1.errno ≢ 0 → r.1.image ≡ s.image → Failing h → Sought h off s r

-- How one `write` ends: all is written, or the result is another number.
pub data Put (h : Host) (bytes : ℕ → ℕ) (len : ℕ) (s : Process) (r : ℕ × Process) : Type 0 where
  put : r.0 ≡ len → r.1.image ≡ store s.image s.pos bytes len → Put h bytes len s r
  put_part :
      (n : ℕ)
      → n < len
      → r.0 ≢ len
      → r.1.image ≡ store s.image s.pos bytes n
      → WritesShort h
      → Put h bytes len s r
  not_put : r.0 ≢ len → r.1.errno ≢ 0 → r.1.image ≡ s.image → Failing h → Put h bytes len s r

module _ {h : Host} (is : IsHost h) where
  pub lseek-Sought : (off : ℕ) (s : Process) → Sought h off s (lseek h off s)
  unfolding lseek Failing
  lseek-Sought off s = elim (Option-cases (h.lseek_error s.calls off)) [
    | inl works ↦ rw (works, lseek) (sought refl refl refl)
    | inr (e, fails) ↦
        rw (fails, lseek)
          (not_sought refl (is.lseek_errno s.calls off e fails) refl (inl (s.calls, off, e, fails)))
  ]

  pub write-Put :
      (bytes : ℕ → ℕ) (len : ℕ) (s : Process)
      → len < 2 ^ 32
      → Put h bytes len s (write h bytes len s)
  unfolding write Failing
  write-Put bytes len s small = elim (Result-cases (h.written s.calls len)) [
    | inl (n, works) ↦ elim (Bool-cases (n == len)) [
      | inl all ↦ rw (works, write) (put (==→eq n len all) (rw (==→eq n len all) refl))
      | inr part ↦
          let ne : n ≢ len = ground arith in
          let less : n < len = omega (arith, is.at_most s.calls len n works, ne) in
          rw (works, write) (put_part n less ne refl (s.calls, len, n, works, less))
    ]
    | inr (e, fails) ↦
        rw (fails, write)
          (not_put (omega arith) (is.write_errno s.calls len e fails) refl
            (inr (s.calls, len, e, fails)))
  ]

  -- Both calls write within one block, or end in an error.
  pub write_at-Section :
      (d : Disk) (bid off len : ℕ) (bytes new : ℕ → ℕ) (s : Process)
      → off + len ≤ 4096
      → Shows s.image d
      → Replaces (d bid) off len bytes new
      → Section h (update d bid new) (write_at h (bid * 4096 + off) bytes len s)
  unfolding write_at
  write_at-Section d bid off len bytes new s fits shows r =
      let at = bid * 4096 + off in
      let found = lseek h at s in
      elim (lseek-Sought at s) [
        | not_sought no_ errno same why ↦ rw no_ (failed errno errno why)
        | sought yes_ pos same ↦ rw yes_ (elim (write-Put bytes len found.1 (omega arith)) [
          | put all image ↦
              rw (all, ==-refl len)
                (complete refl (
                  rw (image, pos, same) (Shows-store s.image d bid off len bytes new fits shows r)))
          | put_part n less ne image why ↦
              rw (ne→== (write h bytes len found.1).0 len ne) (short (omega arith) why)
          | not_put ne errno image why ↦
              rw (ne→== (write h bytes len found.1).0 len ne) (failed (omega arith) errno why)
        ])
      ]

  write-Outside :
      (bytes : ℕ → ℕ) (len : ℕ) (s : Process) (a : ℕ)
      → len < 2 ^ 32
      → s.pos + len ≤ a
      → (write h bytes len s).1.image a ≡ s.image a
  write-Outside bytes len s a small past = elim (write-Put bytes len s small) [
    | put all image ↦ rw image (store-Outside s.image s.pos len bytes a (inr past))
    | put_part n less ne image why ↦
        rw image (store-Outside s.image s.pos n bytes a (inr (omega (arith, past, less))))
    | not_put ne errno image why ↦ rw image refl
  ]

  pub write_at-Untouched :
      (off : ℕ) (bytes : ℕ → ℕ) (len top : ℕ) (s : Process)
      → len < 2 ^ 32
      → off + len ≤ top
      → Untouched top s (write_at h off bytes len s).1
  unfolding write_at
  write_at-Untouched off bytes len top s small fits a past =
      let found = lseek h off s in
      elim (lseek-Sought off s) [
        | not_sought no_ errno same why ↦ rw (no_, same) refl
        | sought yes_ pos same ↦
            let kept : (write h bytes len found.1).1.image a ≡ s.image a =
              write-Outside bytes len found.1 a small (omega (arith, pos)) ∙ rw same refl in
            elim (Bool-cases ((write h bytes len found.1).0 == len)) [
              | inl all ↦ rw (yes_, all) kept
              | inr part ↦ rw (yes_, part) kept
            ]
      ]

-- A short write is stored as far as it goes, and errno stays as it is.
pub write_at-short :
    (h : Host) (off : ℕ) (bytes : ℕ → ℕ) (len n : ℕ) (s : Process)
    → h.lseek_error s.calls off ≡ none
    → h.written (s.calls + 1) len ≡ ok n
    → n < len
    → write_at h off bytes len s ≡ (
      neg64 eio,
      record s { image = store s.image off bytes n; pos = off + n; calls = s.calls + 1 + 1 },
    )
unfolding write_at lseek write
write_at-short h off bytes len n s seeks part less =
    simp (seeks, part, ne→== n len (omega arith), lseek, write) refl

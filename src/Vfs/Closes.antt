-- ===== src/Vfs/Closes.antt =====
-- What `vfs_fclose` does to the table of descriptors.
use icariusos.Base.{
  ℕ, zero, suc, ◌-◌, ◌≡◌, refl, sym, ap, ◌∙◌, Bool, true, false, ◌||◌, List, [], ◌∷◌, Bool-cases,
  inl, inr, Option, none, some, leb, get_or, set, ◌>>=◌, if◌then◌else◌,
}
use icariusos.Vfs.{Fs, Fd, Slot, empty, live, dangling, Vfs, get_fd, below_one, through, vfs_fclose}
use icariusos.Errno.{ebadf, einval, negated}

abbrev pub is_empty : Slot → Bool
is_empty empty = true
is_empty (live fd) = false
is_empty dangling = false

is_empty-set :
    (slots : List Slot) (i j : ℕ) (f : Fd)
    → get_or slots i empty ≡ live f
    → is_empty (get_or (set slots i dangling) j empty) ≡ is_empty (get_or slots j empty)
is_empty-set [] i j f e = refl
is_empty-set (s ∷ slots) zero zero f e = sym (ap is_empty e)
is_empty-set (s ∷ slots) zero (suc j) f e = refl
is_empty-set (s ∷ slots) (suc i) zero f e = refl
is_empty-set (s ∷ slots) (suc i) (suc j) f e = is_empty-set slots i j f e

-- The slots that are empty are those that were; or the call went through a slot that dangles.
abbrev pub KeepsEmpty : {W : Type 0} → ℕ → Vfs W → Option (ℕ × Vfs W) → Type 0
KeepsEmpty fd v none = get_fd v.slots fd ≡ dangling
KeepsEmpty fd v (some (res, v')) =
    (i : ℕ) → is_empty (get_or v'.slots i empty) ≡ is_empty (get_or v.slots i empty)

get_fd-live :
    (slots : List Slot) (fd : ℕ) (f : Fd)
    → get_fd slots fd ≡ live f
    → get_or slots (fd - 1) empty ≡ live f
unfolding get_fd
get_fd-live slots fd f e = elim (Bool-cases (below_one fd || leb 512 fd)) [
  | inl out ↦
      let missing : empty ≡ live f =
        sym (ap (λ b. if b then empty else get_or slots (fd - 1) empty) out) ∙ e in
      cc
  | inr inside ↦ sym (ap (λ b. if b then empty else get_or slots (fd - 1) empty) inside) ∙ e
]

-- `vfs_fclose` through the slot of its number.
abbrev close_slot : {W : Type 0} → ℕ → Vfs W → Slot → Option (Fs W) → Option (ℕ × Vfs W)
close_slot fd v s o =
    through s (some (negated ebadf, v)) (λ f. o >>= λ fs.
    some (
      0,
      record v { slots = set v.slots (fd - 1) dangling; world = fs.close_cb f.internal v.world },
    ))
    >>= λ r. r

fclose-refused :
    {W : Type 0} (fd : ℕ) (v : Vfs W)
    → below_one fd ≡ true
    → vfs_fclose fd v ≡ some (negated einval, v)
unfolding vfs_fclose
fclose-refused fd v e = rw e

fclose-slot :
    {W : Type 0} (fd : ℕ) (v : Vfs W)
    → below_one fd ≡ false
    → vfs_fclose fd v ≡ close_slot fd v (get_fd v.slots fd) v.fs
unfolding vfs_fclose
fclose-slot fd v n = rw n

close_slot-KeepsEmpty :
    {W : Type 0} (fs : Fs W) (fd : ℕ) (v : Vfs W) (s : Slot) (o : Option (Fs W))
    → get_fd v.slots fd ≡ s
    → o ≡ some fs
    → KeepsEmpty fd v (close_slot fd v s o)
close_slot-KeepsEmpty fs fd v empty o at is = λ i. refl
close_slot-KeepsEmpty fs fd v (live f) none at is = absurd (cc is)
close_slot-KeepsEmpty fs fd v (live f) (some fs') at is =
    λ i. is_empty-set v.slots (fd - 1) i f (get_fd-live v.slots fd f at)
close_slot-KeepsEmpty fs fd v dangling o at is = at

-- With a file system mounted, `vfs_fclose` of any number on any table either is a fault, and then the
-- slot of the number dangles already, or it returns and exactly the slots that were empty are empty: it
-- never gives a slot back.
pub vfs_fclose-is_empty :
    {W : Type 0} (fs : Fs W) (fd : ℕ) (v : Vfs W)
    → v.fs ≡ some fs
    → KeepsEmpty fd v (vfs_fclose fd v)
vfs_fclose-is_empty fs fd v mounted = elim (Bool-cases (below_one fd)) [
  | inl e ↦ rw (fclose-refused fd v e) (λ i. refl)
  | inr n ↦
      rw (fclose-slot fd v n) (close_slot-KeepsEmpty fs fd v (get_fd v.slots fd) v.fs refl mounted)
]

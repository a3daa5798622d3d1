-- ===== src/Internal/Slots.antt =====
-- The relocation of the registry's slots, and the files that they refer to.
use wslcompat.Prelude.{
  ℕ, ◌+◌, ◌≤◌, ◌≡◌, refl, sym, ap, ◌∙◌, ◌⊎◌, inl, inr, true, false, Option, none, some, List, [],
  ◌∷◌, arith, if◌then◌else◌, Bool-cases, Option-cases, is_some,
}
use wslcompat.Prelude.Int.{ℤ, pos, negsuc, int_eq, is_neg, int_eq_iff, int_eq_self}
use wslcompat.Internal.{Files, Dupfd, set_file, sys_dupfd, relocate_slot, relocate_slots}

-- What fcntl(2) says of F_DUPFD_CLOEXEC.
abbrev pub GivesFree : Dupfd → Type 0
GivesFree dupfd = (o : Files) (f : ℤ) → dupfd o ≡ some f → (o f ≡ none) × (is_neg f ≡ false)

-- Every slot is empty or refers to its file; `own` has the files of the slots.
abbrev pub Keeps : Files → List ℤ → List ℕ → Type 0
Keeps o [] own = Unit {0}
Keeps o (s ∷ ss) [] = Unit {0}
Keeps o (s ∷ ss) (f ∷ fs) = ((is_neg s ≡ true) ⊎ (o s ≡ some f)) × Keeps o ss fs

-- No slot holds the descriptor.
abbrev pub AllOther : ℤ → List ℤ → Type 0
AllOther fd [] = Unit {0}
AllOther fd (s ∷ ss) = (int_eq s fd ≡ false) × AllOther fd ss

-- What is open stays as it is.
abbrev pub Grows : Files → Files → Type 0
Grows o o' = (x : ℤ) (f : ℕ) → o x ≡ some f → o' x ≡ some f

Keeps-slot :
    (o o' : Files) (s : ℤ) (f : ℕ)
    → Grows o o'
    → (is_neg s ≡ true) ⊎ (o s ≡ some f)
    → (is_neg s ≡ true) ⊎ (o' s ≡ some f)
Keeps-slot o o' s f g (inl n) = inl n
Keeps-slot o o' s f g (inr e) = inr (g s f e)

Keeps-Grows :
    (o o' : Files) (ss : List ℤ) (own : List ℕ) → Grows o o' → Keeps o ss own → Keeps o' ss own
Keeps-Grows o o' [] own g h = tt
Keeps-Grows o o' (s ∷ ss) [] g h = tt
Keeps-Grows o o' (s ∷ ss) (f ∷ fs) g h = (Keeps-slot o o' s f g h.0, Keeps-Grows o o' ss fs g h.1)

set_file-Grows : (fd : ℤ) (v : Option ℕ) (o : Files) → o fd ≡ none → Grows o (set_file fd v o)
unfolding set_file
set_file-Grows fd v o new x f h = elim (Bool-cases (int_eq x fd)) [
  | inr n ↦ rw n h
  | inl y ↦ absurd (cc (new, h, (int_eq_iff x fd).0 y))
]

dup_of :
    (dupfd : Dupfd) (target f : ℤ) (o : Files)
    → GivesFree dupfd
    → (if is_some (o target) then dupfd o else none) ≡ some f
    → (is_some (o target) ≡ true) × (o f ≡ none) × (is_neg f ≡ false)
dup_of dupfd target f o free e = elim (Bool-cases (is_some (o target))) [
  | inl y ↦ let given : dupfd o ≡ some f = rw y at e in (y, (free o f given).0, (free o f given).1)
  | inr n ↦ absurd (cc (rw n at e))
]

relocate_slot-Grows :
    (dupfd : Dupfd) (target s : ℤ) (o : Files) (k : ℕ)
    → GivesFree dupfd
    → Grows o (relocate_slot dupfd target s o k).1
unfolding relocate_slot sys_dupfd
relocate_slot-Grows dupfd target s o k free x v h =
    elim (Option-cases (if is_some (o target) then dupfd o else none)) [
      | inl e ↦ ground arith
      | inr (f, e) ↦
          let (there, new, plain) = dup_of dupfd target f o free e in
          ground (arith, set_file-Grows f (o target) o new x v h)
    ]

pub relocate_slots-Grows :
    (dupfd : Dupfd) (target : ℤ) (ss : List ℤ) (o : Files) (k : ℕ)
    → GivesFree dupfd
    → Grows o (relocate_slots dupfd target ss o k).1
unfolding relocate_slots
relocate_slots-Grows dupfd target [] o k free x v h = h
relocate_slots-Grows dupfd target (s ∷ ss) o k free x v h =
    let o' = (relocate_slot dupfd target s o k).1 in
    let k' = (relocate_slot dupfd target s o k).2 in
    relocate_slots-Grows dupfd target ss o' k' free x v
      (relocate_slot-Grows dupfd target s o k free x v h)

pub set_file_self : (f : ℤ) (v : Option ℕ) (o : Files) → set_file f v o f ≡ v
unfolding set_file
set_file_self f v o = rw (int_eq_self f) refl

target_file :
    (s target : ℤ) (o : Files) (own : ℕ)
    → s ≡ target
    → (is_neg s ≡ true) ⊎ (o s ≡ some own)
    → is_neg target ≡ false
    → o target ≡ some own
target_file s target o own e (inl n) real = absurd (cc (e, n, real))
target_file s target o own e (inr h) real = ap o (sym e) ∙ h

-- A slot that is moved takes its file along.
relocate_slot_keeps :
    (dupfd : Dupfd) (target s : ℤ) (o : Files) (k : ℕ) (own : ℕ)
    → (is_neg s ≡ true) ⊎ (o s ≡ some own)
    → is_neg target ≡ false
    → (let (s', o', k') = relocate_slot dupfd target s o k in
        (is_neg s' ≡ true) ⊎ (o' s' ≡ some own))
unfolding relocate_slot sys_dupfd
relocate_slot_keeps dupfd target s o k own h real = elim (Bool-cases (int_eq s target)) [
  | inr n ↦ rw (n, relocate_slot, sys_dupfd) h
  | inl y ↦ elim (Option-cases (if is_some (o target) then dupfd o else none)) [
    | inl e ↦ rw (y, e, relocate_slot, sys_dupfd) (inl refl)
    | inr (f, e) ↦
        rw (y, e, relocate_slot, sys_dupfd)
          (inr (
            set_file_self f (o target) o
            ∙ target_file s target o own ((int_eq_iff s target).0 y) h real))
  ]
]

different :
    (o : Files) (f target : ℤ) → is_some (o target) ≡ true → o f ≡ none → int_eq f target ≡ false
different o f target y n = elim (Bool-cases (int_eq f target)) [
  | inl e ↦ absurd (cc (y, ap is_some (ap o (sym ((int_eq_iff f target).0 e)) ∙ n)))
  | inr e ↦ e
]

not_minus_two : (target : ℤ) → is_neg target ≡ false → int_eq (negsuc 1) target ≡ false
not_minus_two (pos n) h = refl
not_minus_two (negsuc n) h = cc

relocate_slot_other :
    (dupfd : Dupfd) (target s : ℤ) (o : Files) (k : ℕ)
    → GivesFree dupfd
    → is_neg target ≡ false
    → int_eq (relocate_slot dupfd target s o k).0 target ≡ false
unfolding relocate_slot sys_dupfd
relocate_slot_other dupfd target s o k free real = elim (Bool-cases (int_eq s target)) [
  | inr n ↦ rw (n, relocate_slot, sys_dupfd) n
  | inl y ↦ elim (Option-cases (if is_some (o target) then dupfd o else none)) [
    | inl e ↦ rw (y, e, relocate_slot, sys_dupfd) (not_minus_two target real)
    | inr (f, e) ↦
        let (there, new, plain) = dup_of dupfd target f o free e in
        rw (y, e, relocate_slot, sys_dupfd) (different o f target there new)
  ]
]

pub relocate_slots-AllOther :
    (dupfd : Dupfd) (target : ℤ) (ss : List ℤ) (o : Files) (k : ℕ)
    → GivesFree dupfd
    → is_neg target ≡ false
    → AllOther target (relocate_slots dupfd target ss o k).0
unfolding relocate_slots
relocate_slots-AllOther dupfd target [] o k free real = tt
relocate_slots-AllOther dupfd target (s ∷ ss) o k free real = (
  relocate_slot_other dupfd target s o k free real,
  relocate_slots-AllOther dupfd target ss (relocate_slot dupfd target s o k).1
      (relocate_slot dupfd target s o k).2 free real,
)

pub relocate_slots-Keeps :
    (dupfd : Dupfd) (target : ℤ) (ss : List ℤ) (own : List ℕ) (o : Files) (k : ℕ)
    → GivesFree dupfd
    → is_neg target ≡ false
    → Keeps o ss own
    → Keeps (relocate_slots dupfd target ss o k).1 (relocate_slots dupfd target ss o k).0 own
unfolding relocate_slots
relocate_slots-Keeps dupfd target [] own o k free real h = tt
relocate_slots-Keeps dupfd target (s ∷ ss) [] o k free real h = tt
relocate_slots-Keeps dupfd target (s ∷ ss) (f ∷ fs) o k free real h =
    let s' = (relocate_slot dupfd target s o k).0 in
    let o' = (relocate_slot dupfd target s o k).1 in
    let k' = (relocate_slot dupfd target s o k).2 in
    (
      Keeps-slot o' (relocate_slots dupfd target ss o' k').1 s' f
          (relocate_slots-Grows dupfd target ss o' k' free)
          (relocate_slot_keeps dupfd target s o k f h.0 real),
      relocate_slots-Keeps dupfd target ss fs o' k' free real
          (Keeps-Grows o o' ss fs (relocate_slot-Grows dupfd target s o k free) h.1),
    )

-- A change at a descriptor that no slot holds.
pub Keeps-set_file :
    (fd : ℤ) (v : Option ℕ) (o : Files) (ss : List ℤ) (own : List ℕ)
    → AllOther fd ss
    → Keeps o ss own
    → Keeps (set_file fd v o) ss own
unfolding set_file
Keeps-set_file fd v o [] own other h = tt
Keeps-set_file fd v o (s ∷ ss) [] other h = tt
Keeps-set_file fd v o (s ∷ ss) (f ∷ fs) other h =
    (rw (other.0) h.0, Keeps-set_file fd v o ss fs other.1 h.1)

-- How many slots are empty.
abbrev pub given_up : List ℤ → ℕ
given_up [] = 0
given_up (s ∷ ss) = (if is_neg s then 1 else 0) + given_up ss

relocate_slot_accounts :
    (dupfd : Dupfd) (target s : ℤ) (o : Files) (k : ℕ)
    → GivesFree dupfd
    → given_up ((relocate_slot dupfd target s o k).0 ∷ []) + k
      ≤ given_up (s ∷ []) + (relocate_slot dupfd target s o k).2
unfolding relocate_slot sys_dupfd
relocate_slot_accounts dupfd target s o k free =
    elim (Option-cases (if is_some (o target) then dupfd o else none)) [
      | inl e ↦ ground arith
      | inr (f, e) ↦ ground (arith, (dup_of dupfd target f o free e).2)
    ]

-- Each slot that is emptied is accounted for by a failure.
pub relocate_slots_accounts :
    (dupfd : Dupfd) (target : ℤ) (ss : List ℤ) (o : Files) (k : ℕ)
    → GivesFree dupfd
    → given_up (relocate_slots dupfd target ss o k).0 + k
      ≤ given_up ss + (relocate_slots dupfd target ss o k).2
unfolding relocate_slots
relocate_slots_accounts dupfd target [] o k free = omega arith
relocate_slots_accounts dupfd target (s ∷ ss) o k free =
    let o' = (relocate_slot dupfd target s o k).1 in
    let k' = (relocate_slot dupfd target s o k).2 in
    let first = relocate_slot_accounts dupfd target s o k free in
    let rest = relocate_slots_accounts dupfd target ss o' k' free in omega (arith, first, rest)

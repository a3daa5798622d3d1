-- ===== src/Synth/Override/Views.antt =====
-- What one process stores and relocates, and what it and the others load.
use wslcompat.Prelude.{
  ℕ, ◌≡◌, refl, ◌≢◌, inl, inr, Bool, true, false, not, ◌||◌, Option, none, some, List, [], ◌∷◌,
  arith, if◌then◌else◌, Option-cases, is_some,
}
use wslcompat.Prelude.Int.{ℤ, pos, minus_one, int_eq, is_neg, int_eq_iff, int_eq_self}
use wslcompat.Synth.Override.{
  Process, Slot, View, free_pid, get_slot, gc, claim, acquire, put_fd, is_installer, view_fd_load,
  view_fd_store, cas_slot, view_fd_cas, view_fd_relocate,
}
use wslcompat.Synth.Override.Slots.{
  IsLive, slot_fd, get_slot-gc, get_slot-claim_self, get_slot-claim_other, get_slot-put_self,
  get_slot-put_other,
}

pub any_free : List Slot → Bool
any_free [] = false
any_free (s ∷ ss) = int_eq s.pid free_pid || any_free ss

claim-any_free : (p : Process) (fd : ℤ) (ss : List Slot) → is_some (claim p fd ss) ≡ any_free ss
unfolding claim any_free
claim-any_free p fd [] = refl
claim-any_free p fd (s ∷ ss) = ground (arith, claim-any_free p fd ss)

module _ (starttime_of : ℤ → ℕ) (self : Process) (ls : IsLive starttime_of self) where
  -- Can the process write? It is the installer, it has a slot, or one is free after collection.
  abbrev pub has_room : View → Bool
  has_room v =
      is_installer v self
      || (is_some (get_slot self v.slots) || any_free (gc starttime_of self v.slots))

  acquire-got :
      (fd : ℤ) (ss : List Slot)
      → (acquire starttime_of self fd ss).1
        ≡ (is_some (get_slot self ss) || any_free (gc starttime_of self ss))
  unfolding acquire
  acquire-got fd ss =
      let g = gc starttime_of self ss in
      ground (arith, get_slot-gc starttime_of self self ls ls ss, claim-any_free self fd g)

  acquire-own :
      (fd : ℤ) (ss : List Slot)
      → slot_fd (get_slot self (acquire starttime_of self fd ss).0) ≡ (
          if is_some (get_slot self ss)
          then slot_fd (get_slot self ss)
          else if (acquire starttime_of self fd ss).1
          then some fd
          else none)
  unfolding acquire
  acquire-own fd ss =
      let g = gc starttime_of self ss in
      let same = get_slot-gc starttime_of self self ls ls ss in
      elim (Option-cases (claim self fd g)) [
        | inl e ↦ ground (arith, same)
        | inr (g', e) ↦ ground (arith, same, get_slot-claim_self self fd g g')
      ]

  acquire-other :
      (fd : ℤ) (ss : List Slot) (p : Process)
      → IsLive starttime_of p
      → p.pid ≢ self.pid
      → get_slot p (acquire starttime_of self fd ss).0 ≡ get_slot p ss
  unfolding acquire
  acquire-other fd ss p lp ne =
      let g = gc starttime_of self ss in
      let same = get_slot-gc starttime_of self p lp ls ss in
      elim (Option-cases (claim self fd g)) [
        | inl e ↦ ground (arith, same)
        | inr (g', e) ↦ ground (arith, same, get_slot-claim_other self fd p lp.has_pid ne g g')
      ]

  load-slot :
      (v : View)
      → view_fd_load self v ≡ (
          if is_installer v self
          then v.base
          else elim (slot_fd (get_slot self v.slots)) [ none ↦ v.base | some fd ↦ fd ])
  unfolding view_fd_load
  load-slot v = ground arith

  is_installer-slots :
      (v : View) (ss : List Slot) (p : Process)
      → is_installer (record v { slots = ss }) p ≡ is_installer v p
  unfolding is_installer
  is_installer-slots v ss p = refl

  is_installer-base :
      (v : View) (b : ℤ) (p : Process) → is_installer (record v { base = b }) p ≡ is_installer v p
  unfolding is_installer
  is_installer-base v b p = refl

  is_some-slot_fd : (o : Option Slot) → is_some (slot_fd o) ≡ is_some o
  is_some-slot_fd none = refl
  is_some-slot_fd (some s) = refl

  -- A live process that stores a descriptor loads it back, as long as it is the installer, has a
  -- slot, or finds one free after collection; else it loads what it loaded before.
  pub load-store :
      (v : View) (fd : ℤ)
      → view_fd_load self (view_fd_store starttime_of self v fd)
        ≡ (if has_room v then fd else view_fd_load self v)
  unfolding view_fd_store
  load-store v fd =
      let ss = (acquire starttime_of self fd v.slots).0 in
      ground (
        arith,
        load-slot (record v { base = fd }),
        load-slot (record v { slots = put_fd self fd ss }),
        load-slot (record v { slots = ss }),
        load-slot v,
        is_installer-base v fd self,
        is_installer-slots v ss self,
        is_installer-slots v (put_fd self fd ss) self,
        acquire-got fd v.slots,
        acquire-own fd v.slots,
        get_slot-put_self self fd ss,
        is_some-slot_fd (get_slot self ss),
        is_some-slot_fd (get_slot self v.slots),
      )

  -- What a process that is not the installer stores, no other live process sees.
  pub load-store_other :
      (v : View) (fd : ℤ) (p : Process)
      → is_installer v self ≡ false
      → IsLive starttime_of p
      → p.pid ≢ self.pid
      → view_fd_load p (view_fd_store starttime_of self v fd) ≡ view_fd_load p v
  unfolding view_fd_store view_fd_load
  load-store_other v fd p ni lp ne =
      let ss = (acquire starttime_of self fd v.slots).0 in
      ground (
        arith,
        is_installer-slots v ss p,
        is_installer-slots v (put_fd self fd ss) p,
        acquire-other fd v.slots p lp ne,
        get_slot-put_other self fd p lp.has_pid ne ss,
      )

  cas_slot_lem :
      (expected desired : ℤ) (ss : List Slot)
      → slot_fd (get_slot self ss) ≡ some expected
      → cas_slot self expected desired ss ≡ (put_fd self desired ss, true)
  unfolding cas_slot
  cas_slot_lem expected desired ss h = ground (arith, int_eq_self expected)

  -- The exchange succeeds exactly when the process can write, and then the process sees the new
  -- value.
  cas_lem :
      (v : View) (expected desired : ℤ)
      → view_fd_load self v ≡ expected
      → ((view_fd_cas starttime_of self v expected desired).1 ≡ has_room v)
        × (view_fd_load self (view_fd_cas starttime_of self v expected desired).0
            ≡ (if has_room v then desired else view_fd_load self v))
  unfolding view_fd_cas
  cas_lem v expected desired h =
      let ss = (acquire starttime_of self expected v.slots).0 in
      ground (
        arith,
        int_eq_self v.base,
        load-slot (record v { base = desired }),
        load-slot (record v { slots = put_fd self desired ss }),
        load-slot (record v { slots = ss }),
        load-slot v,
        is_installer-base v desired self,
        is_installer-slots v ss self,
        is_installer-slots v (put_fd self desired ss) self,
        acquire-got expected v.slots,
        acquire-own expected v.slots,
        cas_slot_lem expected desired ss,
        get_slot-put_self self desired ss,
        is_some-slot_fd (get_slot self ss),
        is_some-slot_fd (get_slot self v.slots),
      )

  cas-other :
      (v : View) (expected desired : ℤ) (p : Process)
      → is_installer v self ≡ false
      → IsLive starttime_of p
      → p.pid ≢ self.pid
      → view_fd_load p (view_fd_cas starttime_of self v expected desired).0 ≡ view_fd_load p v
  unfolding view_fd_cas view_fd_load cas_slot
  cas-other v expected desired p ni lp ne =
      let ss = (acquire starttime_of self expected v.slots).0 in
      ground (
        arith,
        is_installer-slots v ss p,
        is_installer-slots v (put_fd self desired ss) p,
        acquire-other expected v.slots p lp ne,
        get_slot-put_other self desired p lp.has_pid ne ss,
      )

  -- What a relocation is to do, from the descriptor seen, the target, the duplicate (negative if
  -- the duplication failed) and whether the process can write: the descriptor seen afterwards, the
  -- result, and the descriptor that is closed again.
  abbrev pub relocated : (seen targetfd dup : ℤ) → Bool → ℤ × ℤ × Option ℤ
  relocated seen targetfd dup room =
      if not (int_eq seen targetfd)
      then (seen, pos 0, none)
      else if is_neg dup
      then ((if room then minus_one else seen), minus_one, none)
      else if room
      then (dup, dup, none)
      else (seen, pos 0, some dup)

  -- On every branch a relocation by a live process does what `relocated` says. In particular, a
  -- view that named the target names the duplicate, or -1 if the duplication failed; but where the
  -- slots are exhausted it goes on naming the target, and the duplicate is closed.
  pub view_fd_relocate_lem :
      (v : View) (targetfd dup : ℤ)
      → (
        view_fd_load self (view_fd_relocate starttime_of self v targetfd dup).view,
        (view_fd_relocate starttime_of self v targetfd dup).result,
        (view_fd_relocate starttime_of self v targetfd dup).closed,
      )
        ≡ relocated (view_fd_load self v) targetfd dup (has_room v)
  unfolding view_fd_relocate
  view_fd_relocate_lem v targetfd dup =
      let same = (int_eq_iff (view_fd_load self v) targetfd).0 in
      ground (arith, same, cas_lem v targetfd dup, cas_lem v targetfd minus_one)

  -- A relocation by a process that is not the installer changes what no other live process sees.
  pub view_fd_relocate_other :
      (v : View) (targetfd dup : ℤ) (p : Process)
      → is_installer v self ≡ false
      → IsLive starttime_of p
      → p.pid ≢ self.pid
      → view_fd_load p (view_fd_relocate starttime_of self v targetfd dup).view ≡ view_fd_load p v
  unfolding view_fd_relocate
  view_fd_relocate_other v targetfd dup p ni lp ne =
      ground (arith, cas-other v targetfd dup p ni lp ne, cas-other v targetfd minus_one p ni lp ne)

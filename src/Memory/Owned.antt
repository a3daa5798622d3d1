-- ===== src/Memory/Owned.antt =====
-- The mappings that a run of mmap leaves, and those that its calls may replace.
use wslcompat.Prelude.{
  ℕ, ◌%◌, ◌≡◌, refl, inl, inr, Bool, true, false, not, ◌&&◌, ◌||◌, Option, none, some, List, [],
  ◌∷◌, arith, ◌==◌, if◌then◌else◌, Bool-cases, Res, ret, fail, eperm, ebadf, enomem, eexist, enodev,
  einval, eopnotsupp,
}
use wslcompat.Prelude.Int.{ℤ, pos, negsuc}
use wslcompat.Memory.{
  Request, SynthOps, Kernel, Event, mapped, refused, unmapped, Trace, ◌then◌, call, lock, map_again,
  reservation, reserve, emulate, through_passthru, through_ops, synth_fallback, mmap,
}

abbrev pub elem : ℕ → List ℕ → Bool
elem a [] = false
elem a (b ∷ bs) = (a == b) || elem a bs

abbrev pub remove : ℕ → List ℕ → List ℕ
remove a [] = []
remove a (b ∷ bs) = if a == b then remove a bs else b ∷ remove a bs

-- The addresses that the run has mapped, from those it had before on. A map at an address that it
-- has replaces the mapping there.
abbrev pub replay : List ℕ → List Event → List ℕ
replay own [] = own
replay own (mapped r a ∷ es) = replay (if elem a own then own else a ∷ own) es
replay own (refused r ∷ es) = replay own es
replay own (unmapped a ∷ es) = replay (remove a own) es

-- May a call with this request replace what others have mapped? `asked` says that the caller did.
abbrev pub harmless : (asked : Bool) → List ℕ → Request → Bool
harmless asked own r = not r.flags.fixed || asked || elem r.addr own

abbrev pub all_harmless : (asked : Bool) → List ℕ → List Event → Bool
all_harmless asked own [] = true
all_harmless asked own (mapped r a ∷ es) =
    harmless asked own r && all_harmless asked (if elem a own then own else a ∷ own) es
all_harmless asked own (refused r ∷ es) = harmless asked own r && all_harmless asked own es
all_harmless asked own (unmapped a ∷ es) = all_harmless asked (remove a own) es

abbrev pub result_of : Res ℕ → List ℕ
result_of (ret a) = a ∷ []
result_of (fail e) = []

-- A run that starts with the mappings `own` leaves only its result, and its calls are harmless.
pub record Owns (asked : Bool) (own : List ℕ) (t : Trace) : Type 0 where
  pub left : replay own t.0 ≡ result_of t.1
  pub safe : all_harmless asked own t.0 ≡ true

-- The kernel maps at the address of a request with MAP_FIXED, or fails.
abbrev pub FixedHonoured : Kernel → Type 0
FixedHonoured K =
    (k : ℕ) (r : Request) (a : ℕ) → r.flags.fixed ≡ true → K.mmap_call k r ≡ ret a → a ≡ r.addr

elem_self : (a : ℕ) → elem a (a ∷ []) ≡ true
elem_self a = ground arith

remove_self : (a : ℕ) → remove a (a ∷ []) ≡ []
remove_self a = ground arith

failed-Owns : (asked : Bool) (e : ℕ) → Owns asked [] ([], fail e)
failed-Owns asked e = record { left = refl; safe = refl }

undone-Owns : (asked : Bool) (a e : ℕ) → Owns asked (a ∷ []) (unmapped a ∷ [], fail e)
undone-Owns asked a e = record { left = remove_self a; safe = refl }

module _ (K : Kernel) where
  -- A call, by its two results.
  call-Owns :
      (asked : Bool) (own : List ℕ) (k : ℕ) (r : Request) (done failed : ℕ → Trace)
      → harmless asked own r ≡ true
      → ((a : ℕ)
          → K.mmap_call k r ≡ ret a
          → Owns asked (if elem a own then own else a ∷ own) (done a))
      → ((e : ℕ) → Owns asked own (failed e))
      → (res : Res ℕ) → K.mmap_call k r ≡ res
      → Owns asked own (call K k r done failed)
  unfolding call
  call-Owns asked own k r done failed h d f (ret a) eq =
      rw (eq, call) (record { left = (d a eq).left; safe = rw h (d a eq).safe })
  call-Owns asked own k r done failed h d f (fail e) eq =
      rw (eq, call) (record { left = (f e).left; safe = rw h (f e).safe })

  lock-Owns : (asked : Bool) (r : Request) (a : ℕ) → Owns asked (a ∷ []) (lock K r a)
  unfolding lock
  lock-Owns asked r a = elim (Bool-cases (r.flags.locked && not (K.mlock a))) [
    | inl y ↦ rw (y, lock) (undone-Owns asked a enomem)
    | inr n ↦ rw (n, lock) (record { left = refl; safe = refl })
  ]

  map_again-Owns : (r : Request) → Owns r.flags.fixed [] (map_again K r false)
  unfolding map_again
  map_again-Owns r =
      call-Owns r.flags.fixed [] 3 _ _ _ (ground arith) (λ a _. lock-Owns r.flags.fixed r a)
        (λ e. failed-Owns r.flags.fixed e) _ refl

  map_reserved-Owns :
      (r : Request) → FixedHonoured K → Owns r.flags.fixed (r.addr ∷ []) (map_again K r true)
  unfolding map_again
  map_reserved-Owns r fh =
      call-Owns r.flags.fixed (r.addr ∷ []) 3 _ _ _ (ground arith)
        (λ a eq.
          let here : a ≡ r.addr = fh 3 _ a (ground arith) eq in
          rw (here, elem_self r.addr) (lock-Owns r.flags.fixed r r.addr))
        (λ e. undone-Owns r.flags.fixed r.addr e) _ refl

  reserved-Owns :
      (r : Request) (p : ℕ)
      → FixedHonoured K
      → Owns r.flags.fixed
          (p ∷ [])
          (if p == r.addr then map_again K r true else (unmapped p ∷ [], fail eexist))
  reserved-Owns r p fh = elim (Bool-cases (p == r.addr)) [
    | inl y ↦ let here : p ≡ r.addr = ground arith in rw (y, here) (map_reserved-Owns r fh)
    | inr n ↦ rw n (undone-Owns r.flags.fixed p eexist)
  ]

  reserve-Owns : (r : Request) → FixedHonoured K → Owns r.flags.fixed [] (reserve K r)
  unfolding reserve reservation
  reserve-Owns r fh = elim (Bool-cases (r.addr == 0)) [
    | inl y ↦ rw (y, reserve) (failed-Owns r.flags.fixed eperm)
    | inr n ↦ elim (Bool-cases (r.addr % 4096 == 0)) [
      | inr m ↦ rw (n, m, reserve) (failed-Owns r.flags.fixed einval)
      | inl z ↦
          rw (n, z, reserve)
            (call-Owns r.flags.fixed [] 2 _ _ _ refl (λ p _. reserved-Owns r p fh)
              (λ e. failed-Owns r.flags.fixed e) _ refl)
    ]
  ]

  emulate-Owns : (r : Request) (e : ℕ) → FixedHonoured K → Owns r.flags.fixed [] (emulate K r e)
  unfolding emulate reserve reservation map_again lock
  emulate-Owns r e fh = elim (Bool-cases (not (e == einval) && not (e == eopnotsupp))) [
    | inl y ↦ rw (y, emulate) (failed-Owns r.flags.fixed e)
    | inr n ↦ elim (Bool-cases (r.flags.noreplace || r.flags.locked)) [
      | inr m ↦ rw (n, m, emulate) (failed-Owns r.flags.fixed e)
      | inl z ↦ elim (Bool-cases r.flags.noreplace) [
        | inl v ↦ rw (n, z, v, emulate) (reserve-Owns r fh)
        | inr w ↦ rw (n, z, w, emulate) (map_again-Owns r)
      ]
    ]
  ]

  through_passthru-Owns :
      (r : Request) (real : Option ℤ)
      → FixedHonoured K
      → Owns r.flags.fixed [] (through_passthru K r real)
  unfolding through_passthru
  through_passthru-Owns r none fh = emulate-Owns r enodev fh
  through_passthru-Owns r (some (negsuc n)) fh = emulate-Owns (record r { fd = negsuc n }) enodev fh
  through_passthru-Owns r (some (pos n)) fh =
      call-Owns r.flags.fixed [] 1 _ _ _ (ground arith) (λ a _. record { left = refl; safe = refl })
        (λ e. emulate-Owns (record r { fd = pos n }) e fh) _ refl

  through_ops-Owns :
      (r : Request) (map_op : Option (Res ℕ)) (real : Option ℤ)
      → FixedHonoured K
      → Owns r.flags.fixed [] (through_ops K r (record { map_op = map_op; passthru_op = real }))
  unfolding through_ops
  through_ops-Owns r none real fh = through_passthru-Owns r real fh
  through_ops-Owns r (some (ret a)) real fh = record { left = refl; safe = ground arith }
  through_ops-Owns r (some (fail e)) real fh = record {
    left = (emulate-Owns r e fh).left;
    safe = ground (arith, (emulate-Owns r e fh).safe);
  }

  synth_fallback-Owns :
      (r : Request) (ops : Option SynthOps)
      → K.synth r.fd ≡ ops
      → FixedHonoured K
      → Owns r.flags.fixed [] (synth_fallback K r)
  unfolding synth_fallback
  synth_fallback-Owns r none e fh = rw (e, synth_fallback) (emulate-Owns r ebadf fh)
  synth_fallback-Owns r (some ops) e fh =
      rw (e, synth_fallback) (through_ops-Owns r ops.map_op ops.passthru_op fh)

  first_failed-Owns :
      (r : Request) (e : ℕ)
      → FixedHonoured K
      → Owns r.flags.fixed [] (
          if K.passthru
          then ([], fail e)
          else if e == ebadf
          then synth_fallback K r
          else emulate K r e)
  first_failed-Owns r e fh = elim (Bool-cases K.passthru) [
    | inl y ↦ simp y (failed-Owns r.flags.fixed e)
    | inr n ↦ elim (Bool-cases (e == ebadf)) [
      | inl z ↦ simp (n, z) (synth_fallback-Owns r _ refl fh)
      | inr m ↦ simp (n, m) (emulate-Owns r e fh)
    ]
  ]

-- On a kernel that honours MAP_FIXED: whatever fails on the way, a run of mmap leaves no mapping
-- but its result, and none if it fails; and unless the caller asked for MAP_FIXED, a call with
-- MAP_FIXED only ever replaces a mapping that the run has itself reserved.
pub mmap-Owns : (K : Kernel) (r : Request) → FixedHonoured K → Owns r.flags.fixed [] (mmap K r)
unfolding mmap
mmap-Owns K r fh =
    call-Owns K r.flags.fixed [] 0 _ _ _ (ground arith) (λ a _. record { left = refl; safe = refl })
      (λ e. first_failed-Owns K r e fh) _ refl

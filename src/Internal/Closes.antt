-- ===== src/Internal/Closes.antt =====
-- What a close does to the application's descriptors.
use wslcompat.Prelude.{
  ℕ, ◌≡◌, refl, inl, inr, false, Option, none, some, if◌then◌else◌, Bool-cases, is_some,
}
use wslcompat.Prelude.Int.{ℤ, pos, int_eq, int_eq_iff}
use wslcompat.Internal.{
  Files, Dupfd, Fds, set_file, relocate_slots, relocate_internal, sys_close, close_shim,
}
use wslcompat.Internal.Slots.{GivesFree, relocate_slots-Grows, set_file_self}

set_file_at :
    (fd x : ℤ) (f : ℕ) (o : Files)
    → o x ≡ some f
    → set_file fd none o x ≡ (if int_eq x fd then none else some f)
unfolding set_file
set_file_at fd x f o h = elim (Bool-cases (int_eq x fd)) [ inl y ↦ rw y refl | inr n ↦ rw n h ]

none_of : (v : Option ℕ) → is_some v ≡ false → v ≡ none
none_of none e = refl
none_of (some f) e = cc

kept_apart :
    (fd x : ℤ) (f : ℕ) (o : Files)
    → o x ≡ some f
    → o fd ≡ none
    → o x ≡ (if int_eq x fd then none else some f)
kept_apart fd x f o h gone = elim (Bool-cases (int_eq x fd)) [
  | inl y ↦ absurd (cc (h, gone, (int_eq_iff x fd).0 y))
  | inr n ↦ rw n h
]

-- A close of a descriptor that is not negative leaves it closed, and every other descriptor that
-- was open refers to the file that it had. F_DUPFD gives a descriptor that is not open.
pub close_shim_lem :
    (dupfd : Dupfd) (n : ℕ) (w : Fds) (x : ℤ) (f : ℕ)
    → GivesFree dupfd
    → w.files x ≡ some f
    → (let (r, w') = close_shim dupfd (pos n) w in
        (w'.files (pos n) ≡ none) × (w'.files x ≡ (if int_eq x (pos n) then none else some f)))
unfolding close_shim relocate_internal sys_close
close_shim_lem dupfd n w x f free h =
    let o = (relocate_slots dupfd (pos n) w.slots w.files w.failures).1 in
    let old = relocate_slots-Grows dupfd (pos n) w.slots w.files w.failures free x f h in
    elim (Bool-cases (is_some (o (pos n)))) [
      | inl y ↦ rw (y, sys_close) (set_file_self (pos n) none o, set_file_at (pos n) x f o old)
      | inr e ↦
          let gone = none_of (o (pos n)) e in
          rw (e, sys_close) (gone, kept_apart (pos n) x f o old gone)
    ]

-- ===== src/Open/Tmpfile.antt =====
-- handle_tmpfile_at: what is left of its descriptors and names.
use wslcompat.Prelude.{ℕ, ◌≡◌, refl, ap, ◌∙◌, false, List, ◌∷◌, Res, ret, fail}
use wslcompat.Prelude.Int.{drop_one, ℤ, int_eq, int_eq_self}
use wslcompat.Prelude.Bytes.{text_eq_iff}
use wslcompat.Open.{
  FilePath, Flags, Kernel, World, dir_flags, tmp_flags, close_fd, forget_name, unlink, create_tmp,
  random_tmp, handle_tmpfile_at,
}

-- The descriptors that are held after a call, by its result.
abbrev pub held_after : Res ℤ → List ℤ → List ℤ
held_after (ret fd) held = fd ∷ held
held_after (fail e) held = held

forget_name_head :
    (dir : ℤ) (name : FilePath) (ns : List (ℤ × FilePath))
    → forget_name dir name ((dir, name) ∷ ns) ≡ ns
unfolding forget_name
forget_name_head dir name ns = rw (int_eq_self dir, (text_eq_iff name name).1 refl) refl

module _ {S : Type 0} (K : Kernel S) (temp_name : ℕ → FilePath) where
  -- A name that has just been created can be removed.
  abbrev pub Unlinks : Flags → Type 0
  Unlinks flags =
      (realdir fd : ℤ) (name : FilePath) (mode : ℕ) (s s' : S)
      → K.openat realdir name (tmp_flags flags) mode s ≡ (ret fd, s')
      → (K.unlinkat realdir name (K.record_btime fd s')).0 ≡ ret 0

  -- What create_tmp and what is around it leave.
  abbrev pub Tidy : World S → Res ℤ × World S → Type 0
  Tidy w (r, w') = (w'.held ≡ held_after r w.held) × (w'.names ≡ w.names)

  unlink_created :
      (realdir : ℤ) (name : FilePath) (w : World S) (ns : List (ℤ × FilePath))
      → (K.unlinkat realdir name w.state).0 ≡ ret 0
      → w.names ≡ (realdir, name) ∷ ns
      → ((unlink K realdir name w).held ≡ w.held) × ((unlink K realdir name w).names ≡ ns)
  unfolding unlink
  unlink_created realdir name w ns e n = rw (e, unlink, n) (refl, forget_name_head realdir name ns)

  create_tmp_lem :
      (realdir : ℤ) (name : FilePath) (flags : Flags) (mode : ℕ) (w : World S)
      → Unlinks flags
      → Tidy w (create_tmp K realdir name flags mode w)
  unfolding create_tmp
  create_tmp_lem realdir name flags mode w gone =
      let s = (K.openat realdir name (tmp_flags flags) mode w.state).1 in
      elim (K.openat realdir name (tmp_flags flags) mode w.state).0
          as (λ r.
            (K.openat realdir name (tmp_flags flags) mode w.state).0 ≡ r
            → Tidy w (create_tmp K realdir name flags mode w)) [
              | ret fd ↦ λ e.
                  rw (e, create_tmp)
                    (unlink_created realdir name
                      (record {
                        state = K.record_btime fd s;
                        held = fd ∷ w.held;
                        names = (realdir, name) ∷ w.names;
                      })
                      w.names (gone realdir fd name mode w.state s (ap (λ r. (r, s)) e)) refl)
              | fail n ↦ λ e. rw (e, create_tmp) (refl, refl)
            ]
        refl

  random_tmp_lem :
      (realdir : ℤ) (flags : Flags) (mode : ℕ) (w : World S)
      → Unlinks flags
      → Tidy w (random_tmp K temp_name realdir flags mode w)
  unfolding random_tmp
  random_tmp_lem realdir flags mode w gone = go (K.getrandom w.state).0 refl
    where
      go :
          (r : Res ℕ)
          → (K.getrandom w.state).0 ≡ r
          → Tidy w (random_tmp K temp_name realdir flags mode w)
      go (ret n) e =
          rw (e, random_tmp)
            (create_tmp_lem realdir (temp_name n) flags mode
              (record w { state = (K.getrandom w.state).1 }) gone)
      go (fail n) e = rw (e, random_tmp) (refl, refl)

  -- Another descriptor than the directory's.
  abbrev pub GivesNew : Flags → Type 0
  GivesNew flags =
      (realdir fd : ℤ) (name : FilePath) (mode : ℕ) (s s' : S)
      → K.openat realdir name (tmp_flags flags) mode s ≡ (ret fd, s')
      → int_eq fd realdir ≡ false

  create_tmp-new :
      (realdir : ℤ) (name : FilePath) (flags : Flags) (mode : ℕ) (w : World S)
      → GivesNew flags
      → (fd : ℤ) → (create_tmp K realdir name flags mode w).0 ≡ ret fd
      → int_eq fd realdir ≡ false
  unfolding create_tmp
  create_tmp-new realdir name flags mode w new fd h =
      go (K.openat realdir name (tmp_flags flags) mode w.state) refl
    where
      go :
          (x : Res ℤ × S)
          → K.openat realdir name (tmp_flags flags) mode w.state ≡ x
          → int_eq fd realdir ≡ false
      go (ret fd', s) e =
          let same : fd' ≡ fd = cc (h, e) in
          new realdir fd name mode w.state s (e ∙ ap (λ d. (ret d, s)) same)
      go (fail n, s) e = cc (h, e)

  random_tmp-new :
      (realdir : ℤ) (flags : Flags) (mode : ℕ) (w : World S)
      → GivesNew flags
      → (fd : ℤ) → (random_tmp K temp_name realdir flags mode w).0 ≡ ret fd
      → int_eq fd realdir ≡ false
  unfolding random_tmp
  random_tmp-new realdir flags mode w new fd h = go (K.getrandom w.state).0 refl
    where
      go : (x : Res ℕ) → (K.getrandom w.state).0 ≡ x → int_eq fd realdir ≡ false
      go (ret n) e =
          create_tmp-new realdir (temp_name n) flags mode
            (record w { state = (K.getrandom w.state).1 }) new fd (rw (e, random_tmp) at h)
      go (fail n) e = cc (h, e)

  drop_one-held_after :
      (realdir : ℤ) (r : Res ℤ) (held : List ℤ)
      → ((fd : ℤ) → r ≡ ret fd → int_eq fd realdir ≡ false)
      → drop_one realdir (held_after r (realdir ∷ held)) ≡ held_after r held
  unfolding drop_one
  drop_one-held_after realdir (ret fd) held new = rw (new fd refl, int_eq_self realdir) refl
  drop_one-held_after realdir (fail e) held new = rw (int_eq_self realdir) refl

  -- On every path, handle_tmpfile_at leaves no descriptor but the one that it returns, if it
  -- returns one, and no name: the name that it creates in the directory is the one that it removes
  -- there. The kernel's descriptor for the file is not that of the directory, which is open at that
  -- time, and unlinkat succeeds on a name that has just been created.
  pub handle_tmpfile_at_lem :
      (dirfd : ℤ) (path : FilePath) (flags : Flags) (mode : ℕ) (w : World S)
      → GivesNew flags
      → Unlinks flags
      → (let (r, w') = handle_tmpfile_at K temp_name dirfd path flags mode w in
          (w'.held ≡ held_after r w.held) × (w'.names ≡ w.names))
  unfolding handle_tmpfile_at close_fd
  handle_tmpfile_at_lem dirfd path flags mode w new gone =
      go (K.openat dirfd path dir_flags 0 w.state).0 refl
    where
      go :
          (x : Res ℤ)
          → (K.openat dirfd path dir_flags 0 w.state).0 ≡ x
          → Tidy w (handle_tmpfile_at K temp_name dirfd path flags mode w)
      go (fail n) e = rw (e, handle_tmpfile_at) (refl, refl)
      go (ret realdir) e =
          let s = (K.openat dirfd path dir_flags 0 w.state).1 in
          let w1 : World S = record w { state = s; held = realdir ∷ w.held } in
          let inner = random_tmp_lem realdir flags mode w1 gone in
          let r = (random_tmp K temp_name realdir flags mode w1).0 in
          rw (e, handle_tmpfile_at)
            (
              ap (drop_one realdir) inner.0
                  ∙ drop_one-held_after realdir r w.held
                      (λ fd h. random_tmp-new realdir flags mode w1 new fd h),
              inner.1,
            )

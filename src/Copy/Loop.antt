-- ===== src/Copy/Loop.antt =====
-- The copy is complete and exact.
use wslcompat.Prelude.{
  ℕ, zero, suc, ◌+◌, ◌-◌, ◌≤◌, ◌<◌, ◌≡◌, refl, sym, ap, ◌∙◌, inl, inr, Option, none, some, arith,
  ltb, ◌==◌, if◌then◌else◌, ltb→lt, ==_iff, Bool-cases, Res, ret,
}
use mathlib.Core.Path.{fun_ext}
use wslcompat.Copy.{
  Kernel, chunk_of, written_at, State, Ending, finished, write_loop, advance, copy_loop, World,
  Pointers, start_at, leave_pointer, leave_pos, outcome, emulate,
}

same_byte :
    (input : ℕ → ℕ) (a b t x : ℕ) → b + t ≤ x → input (a + t + (x - (b + t))) ≡ input (a + (x - b))
same_byte input a b t x h = ap input (omega (arith, h))

written_at-written_at_point :
    (input : ℕ → ℕ) (a b t n : ℕ) (out : ℕ → ℕ) (x : ℕ)
    → written_at input (a + t) (b + t) n (written_at input a b t out) x
      ≡ written_at input a b (t + n) out x
unfolding written_at
written_at-written_at_point input a b t n out x = ground (arith, same_byte input a b t x)

-- Writing further in one piece.
written_at-written_at :
    (input : ℕ → ℕ) (a b t n : ℕ) (out : ℕ → ℕ)
    → written_at input (a + t) (b + t) n (written_at input a b t out)
      ≡ written_at input a b (t + n) out
written_at-written_at input a b t n out =
    fun_ext (λ x. written_at-written_at_point input a b t n out x)

written_at-none_point :
    (input : ℕ → ℕ) (a b : ℕ) (out : ℕ → ℕ) (x : ℕ) → written_at input a b 0 out x ≡ out x
unfolding written_at
written_at-none_point input a b out x = ground arith

written_at-none : (input : ℕ → ℕ) (a b : ℕ) (out : ℕ → ℕ) → written_at input a b 0 out ≡ out
written_at-none input a b out = fun_ext (λ x. written_at-none_point input a b out x)

-- A source of `size` bytes, from which pread gives something unless it is at its end, and a target
-- that takes something of whatever it gets.
pub record IsSound (K : Kernel) (size : ℕ) : Type 0 where
  pub gives : (k chunk offset : ℕ) → ℕ
  pub reads : (k chunk offset : ℕ) → K.pread k chunk offset ≡ ret (gives k chunk offset)
  pub gives_most :
      (k chunk offset : ℕ) → (gives k chunk offset ≤ chunk) × (gives k chunk offset ≤ size - offset)
  pub gives_some : (k chunk offset : ℕ) → 0 < chunk → offset < size → 0 < gives k chunk offset
  pub takes : (k j count : ℕ) → ℕ
  pub writes : (k j count : ℕ) → K.pwrite k j count ≡ ret (takes k j count)
  pub takes_most : (k j count : ℕ) → takes k j count ≤ count
  pub takes_some : (k j count : ℕ) → 0 < count → 0 < takes k j count

module _ (K : Kernel) (input : ℕ → ℕ) (size : ℕ) (sound : IsSound K size) where
  -- The inner loop writes the rest of its bytes.
  write_loop_lem :
      (f k j a b r t : ℕ) (out : ℕ → ℕ)
      → t ≤ r
      → r - t < f
      → write_loop f K input k j a b r t (written_at input a b t out)
        ≡ some (ret r, written_at input a b r out)
  unfolding write_loop
  write_loop_lem zero k j a b r t out h fuel = absurd (omega arith)
  write_loop_lem (suc f) k j a b r t out h fuel = elim (Bool-cases (ltb t r)) [
    | inr n ↦
        let same : t ≡ r = ground arith in
        rw (n, write_loop) (ap (λ x. some (ret x, written_at input a b x out)) same)
    | inl y ↦
        let more = ltb→lt t r y in
        let w = sound.takes k j (r - t) in
        let most = sound.takes_most k j (r - t) in
        let some_bytes = sound.takes_some k j (r - t) (omega (arith, more)) in
        rw (y, sound.writes k j (r - t), write_loop, written_at-written_at input a b t w out)
          (write_loop_lem f k (j + 1) a b r (t + w) out (omega (arith, most, more))
            (omega (arith, most, some_bytes, more, fuel)))
  ]

  -- The bytes that are left to copy.
  abbrev pub left_of : State → ℕ
  left_of s = if ltb s.len (size - s.off_in) then s.len else size - s.off_in

  -- The state after `m` more bytes.
  abbrev pub copied : ℕ → State → State
  copied m s = advance m s (written_at input s.off_in s.off_out m s.out)

  copied-zero : (s : State) → copied 0 s ≡ s
  unfolding advance
  copied-zero s = ground (arith, written_at-none input s.off_in s.off_out s.out)

  copied-copied : (r m : ℕ) (s : State) → copied m (copied r s) ≡ copied (r + m) s
  unfolding advance
  copied-copied r m s = ground (arith, written_at-written_at input s.off_in s.off_out r m s.out)

  left_of-copied : (r : ℕ) (s : State) → r ≤ left_of s → r + left_of (copied r s) ≡ left_of s
  unfolding advance
  left_of-copied r s h = ground arith

  chunk_of-pos : (len : ℕ) → 0 < len → 0 < chunk_of len
  unfolding chunk_of
  chunk_of-pos len h = ground arith

  chunk_of-le : (len : ℕ) → chunk_of len ≤ len
  unfolding chunk_of
  chunk_of-le len = ground arith

  at_end : (s : State) → (s.off_in < size → ⊥) → left_of s ≡ 0
  at_end s h = elim (Bool-cases (ltb s.off_in size)) [
    | inl y ↦ absurd (h (ltb→lt _ _ y))
    | inr n ↦ ground arith
  ]

  shorter : (r f : ℕ) (s : State) → 0 < r → r ≤ s.len → s.len < suc f → (copied r s).len < f
  unfolding advance
  shorter r f s a b c = omega arith

  write_all :
      (k a b r : ℕ) (out : ℕ → ℕ)
      → write_loop (suc r) K input k 0 a b r 0 out ≡ some (ret r, written_at input a b r out)
  write_all k a b r out =
      ap (write_loop (suc r) K input k 0 a b r 0) (sym (written_at-none input a b out))
      ∙ write_loop_lem (suc r) k 0 a b r 0 out (omega arith) (omega arith)

  finished_here :
      (s : State)
      → left_of s ≡ 0
      → ◌≡◌ {A = Option Ending} (some (finished s)) (some (finished (copied (left_of s) s)))
  finished_here s e =
      ap (λ x. some (finished x)) (sym (copied-zero s) ∙ ap (λ m. copied m s) (sym e))

  copy_loop_lem :
      (f k : ℕ) (s : State)
      → s.len < f
      → copy_loop f K input k s ≡ some (finished (copied (left_of s) s))
  unfolding copy_loop
  copy_loop_lem zero k s h = absurd (omega arith)
  copy_loop_lem (suc f) k s h =
      let r = sound.gives k (chunk_of s.len) s.off_in in
      let most = sound.gives_most k (chunk_of s.len) s.off_in in
      let le = chunk_of-le s.len in
      elim (Bool-cases (s.len == 0)) [
        | inl y ↦ rw (y, copy_loop) (finished_here s (ground arith))
        | inr n ↦
            let pos_len : 0 < s.len = ground arith in
            elim (Bool-cases (r == 0)) [
              | inl z ↦
                  let end : s.off_in < size → ⊥ = λ below. omega (
                    arith,
                    (==_iff r 0).0 z,
                    sound.gives_some k (chunk_of s.len) s.off_in (chunk_of-pos s.len pos_len) below,
                  ) in
                  rw (n, sound.reads k (chunk_of s.len) s.off_in, z, copy_loop)
                    (finished_here s (at_end s end))
              | inr q ↦
                  let within : r ≤ left_of s = ground (arith, most, le) in
                  let some_bytes : 0 < r = ground arith in
                  rw
                    (
                      n,
                      sound.reads k (chunk_of s.len) s.off_in,
                      q,
                      write_all k s.off_in s.off_out r s.out,
                      copy_loop,
                    )
                    (copy_loop_lem f (k + 1) (copied r s)
                        (shorter r f s some_bytes (omega (arith, most.0, le)) h)
                      ∙ ap (λ x. some (finished x))
                          (copied-copied r (left_of (copied r s)) s
                            ∙ ap (λ m. copied m s) (left_of-copied r s within)))
            ]
      ]

  -- The number of bytes that a call has to copy.
  abbrev pub to_copy : Pointers → (len : ℕ) → World → ℕ
  to_copy p len w =
      let left = size - start_at p.off_in w.pos_in in if ltb len left then len else left

  -- An offset of the caller, and that of an open file, after `m` bytes.
  abbrev pub moved : ℕ → Option ℕ → Option ℕ
  moved m none = none
  moved m (some off) = some (off + m)

  abbrev pub moved_pos : ℕ → Option ℕ → ℕ → ℕ
  moved_pos m none pos = pos + m
  moved_pos m (some off) pos = pos

  abbrev pub transferred : ℕ → Pointers → World → Res ℕ × Pointers × World
  transferred m p w = (
    ret m,
    record { off_in = moved m p.off_in; off_out = moved m p.off_out },
    record {
      pos_in = moved_pos m p.off_in w.pos_in;
      pos_out = moved_pos m p.off_out w.pos_out;
      out = written_at input (start_at p.off_in w.pos_in) (start_at p.off_out w.pos_out) m w.out;
    },
  )

  leave_pointer-moved :
      (o : Option ℕ) (pos m : ℕ) → leave_pointer o (start_at o pos + m) ≡ moved m o
  unfolding leave_pointer start_at
  leave_pointer-moved none pos m = refl
  leave_pointer-moved (some off) pos m = refl

  leave_pos-moved :
      (o : Option ℕ) (pos m : ℕ) → leave_pos o pos (start_at o pos + m) ≡ moved_pos m o pos
  unfolding leave_pos start_at
  leave_pos-moved none pos m = refl
  leave_pos-moved (some off) pos m = refl

  -- Over any short reads and writes of a sound kernel, the emulation copies all bytes of the
  -- request up to the end of the source, and says so: the target has them at its offset and is
  -- otherwise as before. An offset behind a pointer moves by their number and the open file's
  -- offset stays; without a pointer the open file's offset moves.
  pub emulate_lem :
      (p : Pointers) (len : ℕ) (w : World)
      → emulate K input p len w ≡ some (transferred (to_copy p len w) p w)
  unfolding emulate outcome advance
  emulate_lem p len w =
      let m = to_copy p len w in
      let s : State = record {
        out = w.out;
        off_in = start_at p.off_in w.pos_in;
        off_out = start_at p.off_out w.pos_out;
        total = 0;
        len = len;
      } in
      let zero_more : 0 + m ≡ m = omega arith in
      rw (copy_loop_lem (suc len) 0 s (omega arith), emulate)
        (ground (
          arith,
          leave_pointer-moved p.off_in w.pos_in m,
          leave_pointer-moved p.off_out w.pos_out m,
          leave_pos-moved p.off_in w.pos_in m,
          leave_pos-moved p.off_out w.pos_out m,
          zero_more,
        ))

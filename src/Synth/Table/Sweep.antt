-- ===== src/Synth/Table/Sweep.antt =====
-- What the sweep of a full table closes: probes of its entries only.
use wslcompat.Prelude.{
  ◌≡◌, refl, sym, ◌∙◌, inl, inr, true, false, ◌⊎◌, ◌&&◌, List, [], ◌∷◌, ◌++◌, arith, ℕ, zero, suc,
  Bool-cases, Option-cases,
}
use wslcompat.Prelude.Int.{ℤ, pos, minus_one, int_eq}
use mathlib.Core.List.{append-nil, append_assoc}
use wslcompat.Synth.Table.{
  Entry, Event, release_run, closed, Env, Table, Registration, clean_up, unpin, post_close,
  sweep_past, table_gc, claim_slot, register, should_release, installed_by,
}
use wslcompat.Synth.Table.Entries.{is_live, pinned, pin-live, pin-dead}
use wslcompat.Synth.Table.Close.{post_close_lem}
use wslcompat.Synth.Table.Register.{swept, register-claim, register-swept}

-- No entry has the descriptor as its probe.
abbrev pub NoProbe : ℤ → List Entry → Type 0
NoProbe fd [] = Unit {0}
NoProbe fd (e ∷ es) = (int_eq fd e.probe_fd ≡ false) × NoProbe fd es

-- None of the calls closes the descriptor.
abbrev pub Clear : ℤ → List Event → Type 0
Clear fd [] = Unit {0}
Clear fd (release_run u ∷ es) = Clear fd es
Clear fd (closed p ∷ es) = (int_eq fd p ≡ false) × Clear fd es

Clear-append : (fd : ℤ) (xs ys : List Event) → Clear fd xs → Clear fd ys → Clear fd (xs ++ ys)
Clear-append fd [] ys h k = k
Clear-append fd (release_run u ∷ xs) ys h k = Clear-append fd xs ys h k
Clear-append fd (closed p ∷ xs) ys h k = (h.0, Clear-append fd xs ys h.1 k)

module _ (fd : ℤ) (real : int_eq fd minus_one ≡ false) where
  clean_up-Clear : (e : Entry) → int_eq fd e.probe_fd ≡ false → Clear fd (clean_up e).events
  unfolding clean_up
  clean_up-Clear e h = elim (Bool-cases e.has_release) [
    | inl r ↦ elim (Bool-cases (int_eq e.probe_fd minus_one)) [
      | inl y ↦ rw (r, y) tt
      | inr n ↦ rw (r, n) (h, tt)
    ]
    | inr r ↦ elim (Bool-cases (int_eq e.probe_fd minus_one)) [
      | inl y ↦ rw (r, y) tt
      | inr n ↦ rw (r, n) (h, tt)
    ]
  ]

  unpin-cases :
      (e : Entry)
      → (((unpin e).events ≡ []) × ((unpin e).entry.probe_fd ≡ e.probe_fd)) ⊎ (unpin e ≡ clean_up e)
  unfolding unpin
  unpin-cases e = ground arith

  unpin-Clear :
      (e : Entry)
      → int_eq fd e.probe_fd ≡ false
      → Clear fd (unpin e).events × (int_eq fd (unpin e).entry.probe_fd ≡ false)
  unpin-Clear e h = elim (unpin-cases e) [
    | inl (none_run, same) ↦ rw (none_run, same) (tt, h)
    | inr cleaned ↦ rw cleaned (clean_up-Clear e h, unfold clean_up in real)
  ]

  post_close-Clear :
      (env : Env) (e : Entry)
      → is_live e ≡ true
      → int_eq fd e.probe_fd ≡ false
      → Clear fd (post_close env (pinned e)).events
        × (int_eq fd (post_close env (pinned e)).entry.probe_fd ≡ false)
  post_close-Clear env e live h =
      rw (post_close_lem env e live)
        (elim (Bool-cases (installed_by env.self e && should_release env e)) [
          | inl y ↦ rw y (unpin-Clear e h)
          | inr n ↦ rw n (tt, h)
        ])

  table_gc-Clear :
      (env : Env) (es : List Entry)
      → NoProbe fd es
      → Clear fd (table_gc env es).events × NoProbe fd (table_gc env es).entries
  unfolding table_gc sweep_past
  table_gc-Clear env [] h = (tt, tt)
  table_gc-Clear env (e ∷ es) h = elim (Bool-cases (is_live e)) [
    | inr dead ↦
        let rest = table_gc-Clear env es h.1 in
        rw (pin-dead e dead, table_gc, sweep_past) (rest.0, (h.0, rest.1))
    | inl live ↦
        let rest = table_gc-Clear env es h.1 in
        let u = post_close env (pinned e) in
        let (quiet, other) = post_close-Clear env e live h.0 in
        elim (Bool-cases (int_eq u.entry.refcount (pos 0))) [
          | inl y ↦ rw (pin-live e live, y, table_gc) (quiet, (other, h.1))
          | inr n ↦
              rw (pin-live e live, n, table_gc, sweep_past)
                (Clear-append fd u.events (table_gc env es).events quiet rest.0, (other, rest.1))
        ]
  ]

-- What a registration adds to the log: it closes only probes of entries.
pub register-log :
    (f : ℕ) (env : Env) (r : Registration) (t : Table)
    → (es : List Event) × ((register f env r t).0.log ≡ t.log ++ es)
      × ((fd : ℤ) → int_eq fd minus_one ≡ false → NoProbe fd t.entries → Clear fd es)
register-log zero env r t = ([], unfold register in sym (append-nil t.log), λ fd real h. tt)
register-log (suc f) env r t = elim (Option-cases (claim_slot env.self r t.entries)) [
  | inr ((es, i), e) ↦
      rw (register-claim f env r t es i e) ([], sym (append-nil t.log), λ fd real h. tt)
  | inl e ↦ rw (register-swept f env r t e) (elim (Bool-cases (table_gc env t.entries).found) [
    | inr z ↦ rw z (
      (table_gc env t.entries).events,
      refl,
      λ fd real h. (table_gc-Clear fd real env t.entries h).0,
    )
    | inl y ↦
        let (es, added, clear) = register-log f env r (swept env t) in
        let first = (table_gc env t.entries).events in
        rw y (
          first ++ es,
          added ∙ append_assoc t.log first es,
          λ fd real h.
              let (quiet, other) = table_gc-Clear fd real env t.entries h in
              Clear-append fd first es quiet (clear fd real other),
        )
  ])
]
